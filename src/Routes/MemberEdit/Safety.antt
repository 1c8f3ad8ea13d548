-- ===== src/Routes/MemberEdit/Safety.antt =====
-- What a member edit that goes through has satisfied.
use company_backend.Prelude.{
  ◌≡◌, refl, sym, ◌∙◌, inl, inr, Ident, Bool, true, false, not, ◌&&◌, Option, none, some, List,
  arith,
}
use company_backend.Prelude.HashMap
use company_backend.Prelude.PairMap
use company_backend.Prelude.Int.{leb_ℤ}
use mathlib.Core.Path.{subst}
use company_backend.Models.{User, Server, Member}
use company_backend.Permissions.Flags.{ChannelPermission, bits}
use company_backend.Permissions.FlagBits.{has-single, test_bit-single}
use company_backend.Permissions.Value.{has_channel_permission}
use company_backend.Permissions.Calculate.{calculate_server_permissions}
use company_backend.Permissions.Query.{Returns-inv}
use company_backend.DatabaseQuery.State.{DatabasePermissionQuery}
use company_backend.DatabaseQuery.Methods.{query}
use company_backend.DatabaseQuery.Ranks.{IsServer}
use company_backend.DatabaseQuery.ServerFlags.{server_flag, server_all_flags}
use company_backend.Stores.Servers.{with_roles}
use company_backend.Result.{Error, Result, err, IsOk}
use company_backend.Routes.World.{World, Services}
use company_backend.Routes.Ranking.{get_ranking, or_min}
use company_backend.Routes.Standing.{may, our_rank, calculation, throw-may}
use company_backend.Routes.Responds.{
  Responds, Responds-bind, Responds-lift, Responds-refuse, Responds-map,
}
use company_backend.Routes.Checks.{DataMemberEdit, check_permissions, check_roles}
use company_backend.Routes.Checks.Meaning.{IsPermitted, check_permissions_ok, unnegated}
use company_backend.Routes.Checks.Passing.{check_permissions_passes, check_roles_passes}
use company_backend.Routes.VoiceMove.{new_voice_channel}
use company_backend.Routes.VoiceMove.Quiet.{HasNodes, Finds, new_voice_channel-Finds}
use company_backend.Routes.MemberEdit.{edit}
use company_backend.Routes.MemberEdit.Applied
use company_backend.Routes.MemberEdit.Applied.{assignable, apply_edits-Applies}

module _ (services : Services) (w : World) (user target : User) (server : Server) (member : Member)
    (body : DataMemberEdit) where
  abbrev is_self : Bool
  is_self = Applied.is_self services w user target server member body

  abbrev target_query : DatabasePermissionQuery
  target_query = Applied.target_query services w user target server member body

  abbrev IsAssignable : Option (List Ident) → Type 0
  IsAssignable = Applied.IsAssignable services w user target server member body

  abbrev IsPlain : Type 0
  IsPlain = Applied.IsPlain services w user target server member body

  abbrev Edits : World → Result Member → Type 0
  Edits = Applied.Edits services w user target server member body

  abbrev Applies : World → Result Member → Type 0
  Applies = Applied.Applies services w user target server member body

  module _ (nodes : HasNodes services) (valid : IsServer (some server))
      (found : HashMap.get server.id w.servers ≡ some server)
      (known : HashMap.get member.id.user w.users ≡ some target)
      (present : PairMap.get server.id member.id.user w.members ≡ some member)
      (home : member.id.server ≡ server.id) where
    refusal : (e : Error) → (¬ IsPlain) → Edits w (err e)
    refusal e n = inl (refl, (λ h. h), n)

    -- The check of the roles lets pass what may be given.
    never_refused :
        (new : Option (List Ident)) (e : Error)
        → check_roles (or_min (our_rank services w user server)) server.roles member.roles new
          ≡ err e
        → ¬ IsAssignable new
    unfolding check_roles
    never_refused none e h a = cc
    never_refused (some new) e h a =
        let (left, passed) =
          check_roles_passes (or_min (our_rank services w user server)) server.roles member.roles
            new a in
        cc

    ranked_at :
        (self above : Bool) → (self ≡ false → above ≡ false) → (not self && above) ≡ true → ⊥
    ranked_at true above h k = cc
    ranked_at false above h k = let low = h refl in cc

    -- Without a voice channel, none is looked for.
    unmoved :
        (q : DatabasePermissionQuery) (id : Option Ident)
        → Responds
            (λ w' r. Finds w member.id.server w' r × (id ≡ none → IsOk r))
            (new_voice_channel services q target.id server member id w)
    unfolding new_voice_channel
    unmoved q none = ((refl, tt), λ h. tt)
    unmoved q (some id) =
        Responds-map (Finds w member.id.server) _
          (new_voice_channel services q target.id server member (some id) w)
          (λ w' r f. (f, λ h. cc))
          (new_voice_channel-Finds services q target.id server member (some id) w)

    -- For a stored server, member and target user, and where each voice channel asked for has a
    -- node, `edit` of a member does not panic. It changes nothing and gives an error, or the edit
    -- is allowed: the body is valid; a member other than the caller ranks strictly below the caller; each role that is
    -- new to the member is one of the server's and ranks strictly below the caller; the caller holds
    -- the server flag that each field asks for, MoveMembers for the voice channel of somebody else
    -- included (for a mute or a deafening only if the body sets it, not if it removes it); an avatar
    -- is the caller's own; a timeout is set on somebody else who lacks TimeoutMembers; and a voice
    -- channel is not set and removed at once, and only where there is voice. If all this holds and
    -- the body asks for no voice channel, the checks do let the edit pass. An allowed edit first
    -- marks the file of the old avatar as deleted, if it removes the avatar. Then it gives an error
    -- with just that changed; or it uses the stored file of the new avatar for the caller, and
    -- changes the member's row to what the removals and the body make of it, and nothing else in
    -- the stores, whatever the voice module answers afterwards.
    pub member_edit_allowed : Responds Edits (edit services user server.id member.id.user body w)
    unfolding edit
    member_edit_allowed =
        let (v, q, e, lt, flags, rank) = calculation services w user server valid in
        let (v2, q2, e2, (lt2, flags2)) =
          Returns-inv _ (calculate_server_permissions query target_query)
            (server_all_flags target_query valid) in
        let elevated : has_channel_permission v2 ChannelPermission.timeout_members
            ≡ server_flag target_query 8 =
          has-single v2 (bits ChannelPermission.timeout_members) 8 lt2 (omega arith) (omega arith)
            (λ k m. test_bit-single 8 k (omega arith) m)
          ∙ flags2 8 (omega arith) in
        let passed_at : (e : Error)
            → check_permissions is_self v v2 body services.is_enabled ≡ err e
            → ¬ IsPermitted (may services w user server) is_self (server_flag target_query 8)
                services.is_enabled body =
          λ e p allowed.
            let passed =
              check_permissions_passes (may services w user server) is_self v v2 body
                (λ c j. throw-may services w user server v c j lt flags) services.is_enabled
                (subst
                  (λ b. IsPermitted (may services w user server) is_self b services.is_enabled body)
                  (sym elevated) allowed) in
            cc in
        Responds-refuse Edits _ w (not body.is_valid) Error.failed_validation
          (λ invalid. refusal Error.failed_validation (λ (n, (p, k, a, good)). cc))
          (λ fine.
            rw (found, known, present, e, e2)
              (Responds-lift Edits _ w (check_permissions is_self v v2 body services.is_enabled)
                (λ e p. refusal e (λ (n, (allowed, _, _, _)). passed_at e p allowed))
                (λ done permitted.
                  Responds-bind Edits _
                    (λ w' r. Finds w member.id.server w' r × (body.voice_channel ≡ none → IsOk r)) _
                    (unmoved q body.voice_channel)
                    (λ w' e (same, none_asked). inl (same, (λ h. h), λ (n, _). none_asked n))
                    (λ w' channel ((same, ours), _).
                      rw (same, rank)
                        (Responds-refuse Edits _ w
                          (not is_self
                            && leb_ℤ (get_ranking server member)
                                (or_min (our_rank services w user server)))
                          Error.not_elevated
                          (λ above.
                            refusal Error.not_elevated
                              (λ (n, (p, ranked, _, _)). ranked_at is_self _ ranked above))
                          (λ below.
                            Responds-lift Edits _ w
                              (check_roles (or_min (our_rank services w user server)) server.roles
                                member.roles body.roles)
                              (λ e p.
                                refusal e (λ (n, (_, _, a, _)). never_refused body.roles e p a))
                              (λ left p.
                                Responds-map Applies Edits _
                                  (λ w' r a. inr (
                                    (
                                      subst
                                          (λ b.
                                            IsPermitted (may services w user server) is_self b
                                              services.is_enabled body)
                                          elevated
                                          (check_permissions_ok (may services w user server) is_self
                                            v v2 body
                                            (λ c j. throw-may services w user server v c j lt flags)
                                            services.is_enabled permitted),
                                      (λ other. ground arith),
                                      assignable services w user target server member body
                                          body.roles left p,
                                      unnegated body.is_valid fine,
                                    ),
                                    a,
                                  ))
                                  (apply_edits-Applies services w user target server member body
                                    nodes present home (with_roles (λ old. left) server) channel
                                    ours))))))))
