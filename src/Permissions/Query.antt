-- ===== src/Permissions/Query.antt =====
-- `PermissionQuery` of crates/core/permissions/src/trait.rs: an interface whose methods may change
-- the query object, and may panic (`none`).
use company_backend.Prelude.{ℕ, ◌≡◌, ◌≢◌, refl, Bool, true, Option, none, some, List, if◌then◌else◌}
use company_backend.Permissions.Flags.{ChannelType, RelationshipStatus}
use company_backend.Permissions.Override.{Override}

-- `async fn f(&mut self) -> A` on a query object of type Q.
abbrev pub Ask : Type 0 → Type 0 → Type 0
Ask Q A = Q → Option (A × Q)

module _ {Q : Type 0} where
  abbrev pub pure : {A : Type 0} → A → Ask Q A
  pure a q = some (a, q)

  -- A method that only reads.
  abbrev pub reads : {A : Type 0} → (Q → A) → Ask Q A
  reads f q = some (f q, q)

  abbrev pub panic : {A : Type 0} → Ask Q A
  panic q = none

  infixl 5 ◌>>=◌ ◌>>◌
  abbrev pub ◌>>=◌ : {A B : Type 0} → Ask Q A → (A → Ask Q B) → Ask Q B
  ◌>>=◌ m f q = elim (m q) [ none ↦ none | some (a, q') ↦ f a q' ]

  abbrev pub ◌>>◌ : {A B : Type 0} → Ask Q A → Ask Q B → Ask Q B
  m >> k = m >>= λ _. k

  -- `a.await || b.await`: the second is asked only if the first fails.
  abbrev pub or_else : Ask Q Bool → Ask Q Bool → Ask Q Bool
  or_else a b = a >>= λ x. if x then pure true else b

pub record PermissionQuery (Q : Type 0) : Type 0 where
  pub are_we_privileged : Ask Q Bool
  pub are_we_a_bot : Ask Q Bool
  pub are_the_users_same : Ask Q Bool
  pub user_relationship : Ask Q RelationshipStatus
  pub user_is_bot : Ask Q Bool
  pub have_mutual_connection : Ask Q Bool
  pub are_we_server_owner : Ask Q Bool
  pub are_we_a_member : Ask Q Bool
  pub get_default_server_permissions : Ask Q ℕ
  pub get_our_server_role_overrides : Ask Q (List Override)
  pub are_we_timed_out : Ask Q Bool
  pub do_we_have_publish_overwrites : Ask Q Bool
  pub do_we_have_receive_overwrites : Ask Q Bool
  pub get_channel_type : Ask Q ChannelType
  pub get_default_channel_permissions : Ask Q Override
  pub get_our_channel_role_overrides : Ask Q (List Override)
  pub do_we_own_the_channel : Ask Q Bool
  pub are_we_a_group_moderator : Ask Q Bool
  pub are_we_part_of_the_channel : Ask Q Bool
  pub set_recipient_as_user : Ask Q (Unit {0})
  pub set_server_from_channel : Ask Q (Unit {0})

-- The call returns, and its result and the query object after it are as stated.
abbrev pub Returns : {A Q : Type 0} → Option (A × Q) → (A → Q → Type 0) → Type 0
Returns none P = ⊥
Returns (some (a, q)) P = P a q

pub Returns-inv :
    {A Q : Type 0} (P : A → Q → Type 0) (r : Option (A × Q))
    → Returns r P
    → (a : A) × (q : Q) × (r ≡ some (a, q)) × P a q
Returns-inv P none h = absurd h
Returns-inv P (some (a, q)) h = (a, q, refl, h)

pub Returns-ne-none :
    {A Q : Type 0} (P : A → Q → Type 0) (r : Option (A × Q)) → Returns r P → r ≢ none
Returns-ne-none P none h e = absurd h
Returns-ne-none P (some (a, q)) h e = cc

pub Returns-map :
    {A Q : Type 0} (P R : A → Q → Type 0) (r : Option (A × Q))
    → ((a : A) (q : Q) → P a q → R a q)
    → Returns r P
    → Returns r R
Returns-map P R none f h = h
Returns-map P R (some (a, q)) f h = f a q h
