-- ===== src/Routes/MemberEdit/Applied.antt =====
-- What an allowed member edit is, and what it does.
use company_backend.Prelude.{
  ◌≡◌, sym, ap, ◌⊎◌, inl, inr, Ident, Bool, true, false, Option, none, some, List, contains, ◌==◌,
}
use company_backend.Prelude.HashMap
use company_backend.Prelude.PairMap
use company_backend.Prelude.Int.{leb_ℤ}
use mathlib.Core.Path.{subst}
use company_backend.Models.{User, Role, Server, Member, Channel}
use company_backend.DatabaseQuery.State.{DatabasePermissionQuery, with_member}
use company_backend.DatabaseQuery.ServerFlags.{server_flag}
use company_backend.Stores.Files.{Files}
use company_backend.Stores.Members.{update_member}
use company_backend.Result.{Result, ok, IsOk}
use company_backend.Routes.World.{World, Services, server_query, ◌>>=◌}
use company_backend.Routes.Ranking.{get_ranking, or_min}
use company_backend.Routes.Standing.{may, our_rank}
use company_backend.Routes.Responds.{Responds, Responds-bind, quiet}
use company_backend.Routes.Checks.{DataMemberEdit, check_roles}
use company_backend.Routes.Checks.Meaning.{IsPermitted, IsGiveable, check_roles_ok}
use company_backend.Routes.VoiceMove.{follow_in_voice}
use company_backend.Routes.VoiceMove.Quiet.{HasNodes, IsHere, follow_quiet}
use company_backend.Routes.MemberEdit.{
  partial_of, drop_avatar, new_avatar, updated, commit, apply_edits, on_members,
}
use company_backend.Routes.MemberEdit.Cleared.{cleared, remove_fields-cleared}
use company_backend.Routes.MemberEdit.Avatar.{
  IsMarked, IsUsed, IsAvatar, Uses, drop_avatar-IsMarked, new_avatar-Uses,
}

module _ (services : Services) (w : World) (user target : User) (server : Server) (member : Member)
    (body : DataMemberEdit) where
  abbrev pub is_self : Bool
  is_self = user.id == member.id.user

  -- The query for the target, and whether the target holds TimeoutMembers.
  abbrev pub target_query : DatabasePermissionQuery
  target_query = with_member member (server_query services target server w)

  -- Every role that the body adds is one of the server's and ranks strictly below the caller.
  abbrev pub IsAssignable : Option (List Ident) → Type 0
  IsAssignable none = Unit
  IsAssignable (some roles) =
      (id : Ident)
      → contains roles id ≡ true
      → contains member.roles id ≡ false
      → IsGiveable (or_min (our_rank services w user server)) server.roles id

  abbrev pub with_files : Files → World
  with_files files = record w { files = files }

  -- The row that the edit makes, for an avatar: what the body sets, over what its removals leave.
  abbrev pub made : Option Ident → Member
  made avatar =
      services.apply_member
        (record {
          nickname = body.nickname;
          avatar = avatar;
          roles = body.roles;
          timeout = body.timeout;
          can_publish = body.can_publish;
          can_receive = body.can_receive;
        })
        (cleared body.remove member)

  -- The world with that row, for a store of files.
  abbrev pub edited : Files → Option Ident → World
  edited files avatar = record w {
    members = PairMap.insert member.id.server member.id.user (made avatar) w.members;
    files = files;
  }

  -- The guards of the edit.
  abbrev pub IsAllowed : Type 0
  IsAllowed =
      IsPermitted (may services w user server) is_self (server_flag target_query 8)
        services.is_enabled body
      × ((is_self ≡ false)
          → leb_ℤ (get_ranking server member) (or_min (our_rank services w user server)) ≡ false)
      × IsAssignable body.roles
      × (body.is_valid ≡ true)

  -- What an allowed edit does: the old avatar's file is marked as deleted if the body removes the
  -- avatar. Then it fails, or it makes the new avatar's file the caller's and changes the row.
  abbrev pub Applies : World → Result Member → Type 0
  Applies w' r =
      (dropped : Files) × IsMarked body member.avatar w.files dropped
      × (((w' ≡ with_files dropped) × (¬ IsOk r))
          ⊎ ((files : Files) × (avatar : Option Ident) × IsUsed user.id body.avatar dropped files
              × IsAvatar dropped body.avatar avatar
              × (quiet w' ≡ quiet (edited files avatar))))

  -- The body asks for no voice channel, and the edit is allowed.
  abbrev pub IsPlain : Type 0
  IsPlain = (body.voice_channel ≡ none) × IsAllowed

  -- Nothing changes and the result is an error, or the edit is allowed and applied; an allowed edit
  -- that asks for no voice channel is applied.
  abbrev pub Edits : World → Result Member → Type 0
  Edits w' r = ((w' ≡ w) × (¬ IsOk r) × (¬ IsPlain)) ⊎ (IsAllowed × Applies w' r)

  pub assignable :
      (new : Option (List Ident)) (left : HashMap.HashMap Role)
      → check_roles (or_min (our_rank services w user server)) server.roles member.roles new
        ≡ ok left
      → IsAssignable new
  assignable none left h = tt
  assignable (some roles) left h = check_roles_ok _ server.roles left member.roles roles h

  module _ (nodes : HasNodes services)
      (present : PairMap.get server.id member.id.user w.members ≡ some member)
      (home : member.id.server ≡ server.id) (rest : Server) (channel : Option Channel)
      (ours : IsHere member.id.server channel) where
    store_row :
        (files : Files) (avatar : Option Ident)
        → on_members (update_member member.id (updated services body avatar)) (with_files files)
          ≡ some (edited files avatar, ok tt)
    unfolding update_member
    store_row files avatar =
        rw
          (
            update_member,
            subst (λ s. PairMap.get s member.id.user w.members ≡ some member) (sym home) present,
          )
          (ap
            (λ row. some (
              record w {
                members =
                    PairMap.insert member.id.server member.id.user
                      (services.apply_member (partial_of body avatar) row) w.members;
                files = files;
              },
              ok tt,
            ))
            (remove_fields-cleared body.remove member))

    module _ (dropped : Files) (marks : IsMarked body member.avatar w.files dropped) where
      -- The change of the row, and what follows it.
      change_row :
          (files : Files) (avatar : Option Ident)
          → IsUsed user.id body.avatar dropped files
          → IsAvatar dropped body.avatar avatar
          → Responds Applies
              (commit services user target rest member body channel avatar (with_files files))
      change_row files avatar u a = rw (store_row files avatar) (
          Responds-bind Applies _ (λ w' r. quiet w' ≡ quiet (edited files avatar))
            (follow_in_voice services user target rest body channel (edited files avatar))
            (follow_quiet services nodes user target rest body channel member.id.server ours
              (edited files avatar))
            (λ w' e q. (dropped, marks, inr (files, avatar, u, a, q)))
            (λ w' done q. (dropped, marks, inr (files, avatar, u, a, q))))

      with_avatar : Responds Applies (
          (new_avatar user body.avatar >>= commit services user target rest member body channel)
            (with_files dropped))
      with_avatar =
          Responds-bind Applies _ (Uses user.id body.avatar (with_files dropped))
            (new_avatar user body.avatar (with_files dropped))
            (new_avatar-Uses user body.avatar (with_files dropped))
            (λ w' e same. (dropped, marks, inl (same, λ h. h)))
            (λ w' avatar (files, u, a, same).
              subst
                (λ v.
                  Responds Applies (commit services user target rest member body channel avatar v))
                (sym same) (change_row files avatar u a))

    pub apply_edits-Applies :
        Responds Applies (apply_edits services user target rest member body channel w)
    apply_edits-Applies =
        Responds-bind Applies _
          (λ w' r.
            (files : Files) × IsMarked body member.avatar w.files files × (w' ≡ with_files files))
          (drop_avatar body member.avatar w) (drop_avatar-IsMarked body member.avatar w)
          (λ w' e (files, m, same). (files, m, inl (same, λ h. h)))
          (λ w' done (files, m, same).
            subst
              (λ v. Responds Applies (
                (new_avatar user body.avatar
                    >>= commit services user target rest member body channel)
                  v))
              (sym same) (with_avatar files m))
