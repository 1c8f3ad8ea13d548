-- ===== src/Routes/Removal/Kick.antt =====
-- Whom a member may kick, and what the kick does to the stores and in voice.
use company_backend.Prelude.{
  ◌≡◌, refl, sym, Bool, true, false, not, ◌&&◌, none, some, ◌==◌, if◌then◌else◌, arith,
}
use mathlib.Core.Path.{subst}
use company_backend.Prelude.HashMap
use company_backend.Prelude.PairMap
use company_backend.Prelude.Int.{leb_ℤ}
use company_backend.Models.{User, Server, Member}
use company_backend.Permissions.Flags.{ChannelPermission}
use company_backend.DatabaseQuery.State.{in_timeout}
use company_backend.DatabaseQuery.Ranks.{IsServer}
use company_backend.Stores.Members.{soft_delete_member}
use company_backend.Result.{Error, Result, ok, err, Done, IsOk}
use company_backend.Routes.World.{World, Services}
use company_backend.Routes.Ranking.{get_ranking, or_min}
use company_backend.Routes.Standing.{may, our_rank, calculation, throw-may}
use company_backend.Routes.Responds.{Responds, Responds-if, Responds-refuse}
use company_backend.Routes.Removal.{clear_joined, remove, leave_voice, kick}

-- `Member::remove` of a member who is in the store and not in a timeout.
pub remove_lem :
    (member : Member) (w : World)
    → PairMap.get member.id.server member.id.user w.members ≡ some member
    → in_timeout w.now member ≡ false
    → remove member w
      ≡ some (
        record w {
          members = PairMap.remove member.id.server member.id.user w.members;
          bots = clear_joined member.id.server member.id.user w.bots;
        },
        ok tt,
      )
unfolding remove
remove_lem member w found free = rw (remove, soft_delete_member, found, free) refl

module _ (services : Services) (w : World) (user : User) (server : Server) (member : Member) where
  -- Somebody else, not the owner, who ranks strictly below the caller, who holds KickMembers.
  abbrev pub is_kickable : Bool
  is_kickable =
      not (member.id.user == user.id)
      && not (member.id.user == server.owner)
      && may services w user server 6
      && not (leb_ℤ (get_ranking server member) (or_min (our_rank services w user server)))

  abbrev pub kicked : World
  kicked = record w {
    members = PairMap.remove member.id.server member.id.user w.members;
    bots = clear_joined member.id.server member.id.user w.bots;
  }

  abbrev pub Kicks : World → Result Done → Type 0
  Kicks w' r = if is_kickable then (w' ≡ kicked) × (r ≡ ok tt) else (w' ≡ w) × (¬ IsOk r)

  refused : (e : Error) → is_kickable ≡ false → Kicks w (err e)
  refused e refusal = rw refusal (refl, λ h. h)

  removed : is_kickable ≡ true → Kicks kicked (ok tt)
  removed allowed = rw allowed (refl, refl)

  -- For a stored server and member, the member not in a timeout, and where nobody is in voice under
  -- the server's own id: `kick` does not panic. If the member is neither the caller nor the owner
  -- and ranks strictly below the caller, who holds KickMembers, then the row of the member goes, a
  -- companion bot forgets the server, and nothing else changes: in particular no call is made to
  -- take the member out of voice. If not, nothing changes and the result is an error.
  pub kick_stays_in_voice :
      IsServer (some server)
      → HashMap.get server.id w.servers ≡ some server
      → PairMap.get server.id member.id.user w.members ≡ some member
      → member.id.server ≡ server.id
      → in_timeout w.now member ≡ false
      → ((u : World) → services.user_voice_channel u server.id server.id ≡ ok none)
      → Responds Kicks (kick services user server.id member.id.user w)
  unfolding kick leave_voice
  kick_stays_in_voice valid found present home free silent =
      let (v, q, e, lt, flags, rank) = calculation services w user server valid in
      let present' : PairMap.get member.id.server member.id.user w.members ≡ some member =
        subst (λ s. PairMap.get s member.id.user w.members ≡ some member) (sym home) present in
      rw found (
        Responds-refuse Kicks _ w (member.id.user == user.id) Error.cannot_remove_yourself
          (λ self. refused Error.cannot_remove_yourself (ground arith))
          (λ other.
            Responds-refuse Kicks _ w (member.id.user == server.owner) Error.invalid_operation
              (λ owner. refused Error.invalid_operation (ground arith))
              (λ below. rw e (
                Responds-if Kicks _ w _ (may services w user server 6) _
                  (throw-may services w user server v ChannelPermission.kick_members 6 lt flags
                    (omega arith) refl (omega arith))
                  (λ no_flag.
                    refused (Error.missing_permission ChannelPermission.kick_members)
                      (ground arith))
                  (λ flag.
                    rw (present, rank)
                      (Responds-refuse Kicks _ w
                        (leb_ℤ (get_ranking server member)
                          (or_min (our_rank services w user server)))
                        Error.not_elevated (λ above. refused Error.not_elevated (ground arith))
                        (λ under.
                          rw (remove_lem member w present' free, leave_voice, silent kicked)
                            (removed (ground arith)))))))))
