-- ===== src/Models.antt =====
-- The rows of crates/core/database/src/models that the modelled code reads: users, members,
-- servers with their roles, and channels. Fields that no modelled operation touches are left out.
use company_backend.Prelude.{ℕ, Ident, Bool, Option, List}
use company_backend.Prelude.HashMap.{HashMap}
use company_backend.Prelude.Int.{ℤ}
use company_backend.Permissions.Override.{OverrideField}

pub data RelationshipStatus : Type 0 where
  none user friend outgoing incoming blocked blocked_other : RelationshipStatus

pub record Relationship : Type 0 where
  pub id : Ident
  pub status : RelationshipStatus

pub record BotInformation : Type 0 where
  pub owner : Ident

pub record User : Type 0 where
  pub id : Ident
  pub username : ℕ
  pub discriminator : ℕ
  pub relations : Option (List Relationship)
  pub privileged : Bool
  pub bot : Option BotInformation

pub record Role : Type 0 where
  pub id : Ident
  pub name : ℕ
  pub permissions : OverrideField
  pub colour : Option ℕ
  pub hoist : Bool
  pub rank : ℤ

pub record Server : Type 0 where
  pub id : Ident
  pub owner : Ident
  pub channels : List Ident
  pub roles : HashMap Role
  pub default_permissions : ℤ

pub record MemberCompositeKey : Type 0 where
  pub server : Ident
  pub user : Ident

-- `timeout` is the time up to which the member is timed out; of the file `avatar`, the id is kept.
pub record Member : Type 0 where
  pub id : MemberCompositeKey
  pub nickname : Option ℕ
  pub avatar : Option Ident
  pub roles : List Ident
  pub timeout : Option ℕ
  pub can_publish : Bool
  pub can_receive : Bool

pub data Channel : Type 0 where
  saved_messages : (id user : Ident) → Channel
  direct_message : (id : Ident) (recipients : List Ident) → Channel
  group :
      (id owner : Ident) (recipients : List Ident) (permissions : Option ℤ)
      (moderators : List Ident)
      → Channel
  text_channel :
      (id server : Ident) (default_permissions : Option OverrideField)
      (role_permissions : HashMap OverrideField)
      → Channel
