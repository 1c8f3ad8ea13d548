-- ===== src/Routes/Removal/Ban.antt =====
-- Whom a member may ban, and what the ban does to the stores.
use company_backend.Prelude.{
  ℕ, ◌≡◌, refl, ap, sym, ◌∙◌, Ident, Bool, true, false, not, ◌&&◌, Option, none, some, ◌==◌, ==_iff,
  if◌then◌else◌, arith, Option-cases, Bool-cases, inl, inr,
}
use mathlib.Core.Path.{subst}
use company_backend.Prelude.HashMap
use company_backend.Prelude.PairMap
use company_backend.Prelude.PairMap.{get_pair-remove}
use company_backend.Prelude.Int.{leb_ℤ}
use company_backend.Models.{User, Server, Member}
use company_backend.Permissions.Flags.{ChannelPermission}
use company_backend.DatabaseQuery.State.{in_timeout}
use company_backend.DatabaseQuery.Ranks.{IsServer}
use company_backend.Result.{Error, Result, ok, err, Done, IsOk}
use company_backend.Routes.World.{World, Services, ServerBan, VoiceCall}
use company_backend.Routes.Ranking.{get_ranking, or_min}
use company_backend.Routes.Standing.{may, our_rank, calculation, throw-may}
use company_backend.Routes.Responds.{
  Responds, Responds-bind, Responds-if, Responds-refuse, Responds-map, quiet,
}
use company_backend.Routes.Removal.{insert_ban, create_ban, remove_banned, leave_voice, ban}
use company_backend.Routes.Removal.Kick.{remove_lem}

-- The voice module answers every lookup and carries out every removal.
abbrev pub VoiceWorks : Services → Type 0
VoiceWorks services =
    ((u : World) (user server : Ident)
      → (channel : Option Ident) × (services.user_voice_channel u user server ≡ ok channel))
    × ((u : World) (c : VoiceCall) → services.answer u c ≡ ok tt)

gone_at :
    (a b c d : Ident) (m : PairMap.PairMap Member)
    → a ≡ c
    → b ≡ d
    → PairMap.get c d (PairMap.remove a b m) ≡ none
gone_at a b c d m p q = rw (get_pair-remove a b c d m, (==_iff a c).1 p, (==_iff b d).1 q) refl

leave_voice-quiet :
    (services : Services) (user server : Ident) (w : World)
    → VoiceWorks services
    → Responds (λ w' r. (quiet w' ≡ quiet w) × (r ≡ ok tt)) (leave_voice services user server w)
unfolding leave_voice
leave_voice-quiet services user server w works =
    let (channel, e) = works.0 w user server in leave_found channel e
  where
    leave_found :
        (channel : Option Ident)
        → services.user_voice_channel w user server ≡ ok channel
        → Responds (λ w' r. (quiet w' ≡ quiet w) × (r ≡ ok tt)) (leave_voice services user server w)
    leave_found none e = rw (leave_voice, e) (refl, refl)
    leave_found (some channel) e =
        rw (leave_voice, e, works.1 w (VoiceCall.remove_user_from_voice_channel channel user))
          (refl, refl)

module _ (services : Services) (w : World) (user : User) (server : Server) (target : Ident)
    (reason : Option ℕ) where
  -- The member, if the target is one, ranks strictly below the caller.
  abbrev pub is_below : Option Member → Bool
  is_below none = true
  is_below (some member) =
      not (leb_ℤ (get_ranking server member) (or_min (our_rank services w user server)))

  -- Somebody else, not the owner, and below the caller, who holds BanMembers.
  abbrev pub is_bannable : Bool
  is_bannable =
      not (target == user.id)
      && not (target == server.owner)
      && may services w user server 7
      && is_below (PairMap.get server.id target w.members)

  abbrev the_ban : ServerBan
  the_ban = record { id = record { server = server.id; user = target }; reason = reason }

  -- Afterwards the target is no member, and the ban is stored; nobody else's row changes.
  abbrev pub Bans : World → Result ServerBan → Type 0
  Bans w' r =
      if is_bannable
      then (r ≡ ok the_ban)
        × (PairMap.get server.id target w'.members ≡ none)
        × (w'.bans ≡ PairMap.insert server.id target the_ban w.bans)
      else (w' ≡ w) × (¬ IsOk r)

  refused : (e : Error) → is_bannable ≡ false → Bans w (err e)
  refused e refusal = rw refusal (refl, λ h. h)

  stored :
      (w' : World)
      → is_bannable ≡ true
      → PairMap.get server.id target w.bans ≡ none
      → (PairMap.get server.id target w'.members ≡ none) × (w'.bans ≡ w.bans)
      → Responds Bans (create_ban server target reason w')
  unfolding create_ban insert_ban
  stored w' good fresh (gone, same) =
      let fresh' : PairMap.get server.id target w'.bans ≡ none =
        ap (λ m. PairMap.get server.id target m) same ∙ fresh in
      rw (create_ban, insert_ban, fresh', good)
        (refl, gone, ap (PairMap.insert server.id target the_ban) same)

  -- The removal of the member, if the target is one.
  abbrev Removes : World → Result Done → Type 0
  Removes w' r =
      if is_bannable
      then (r ≡ ok tt) × (PairMap.get server.id target w'.members ≡ none) × (w'.bans ≡ w.bans)
      else (w' ≡ w) × (¬ IsOk r)

  -- The member, if the target is one, is stored under its ids, and not in a timeout.
  abbrev pub IsHome : Option Member → Type 0
  IsHome none = Unit
  IsHome (some member) =
      (member.id.server ≡ server.id) × (member.id.user ≡ target) × (in_timeout w.now member ≡ false)

  module _ (works : VoiceWorks services)
      (home : IsHome (PairMap.get server.id target w.members)) where
    remove_member :
        (member : Member)
        → PairMap.get server.id target w.members ≡ some member
        → is_bannable ≡ is_below (some member)
        → Responds Removes
            (remove_banned services server (some (our_rank services w user server)) target w)
    unfolding remove_banned
    remove_member member present same =
        let (at, id, free) = subst IsHome present home in
        let present' : PairMap.get member.id.server member.id.user w.members ≡ some member =
          subst (λ s. PairMap.get s member.id.user w.members ≡ some member) (sym at)
            (subst (λ i. PairMap.get server.id i w.members ≡ some member) (sym id) present) in
        rw (remove_banned, present)
          (Responds-refuse Removes _ w
            (leb_ℤ (get_ranking server member) (or_min (our_rank services w user server)))
            Error.not_elevated (λ above. rw (same, above) (refl, λ h. h))
            (λ under. rw (remove_lem member w present' free) (
              Responds-map _ Removes (leave_voice services target server.id _)
                (λ w' r q. rw (same ∙ ap not under) (
                  q.1,
                  ap (λ u. PairMap.get server.id target u.members) q.0
                      ∙ gone_at member.id.server member.id.user server.id target w.members at id,
                  ap (λ u. u.bans) q.0,
                ))
                (leave_voice-quiet services target server.id _ works))))

    not_removed :
        PairMap.get server.id target w.members ≡ none
        → is_bannable ≡ true
        → Responds Removes
            (remove_banned services server (some (our_rank services w user server)) target w)
    unfolding remove_banned
    not_removed absent good = rw (remove_banned, absent, good) (refl, absent, refl)

    removes :
        is_bannable ≡ is_below (PairMap.get server.id target w.members)
        → Responds Removes
            (remove_banned services server (some (our_rank services w user server)) target w)
    removes same = elim (Option-cases (PairMap.get server.id target w.members)) [
      | inl absent ↦ not_removed absent (same ∙ ap is_below absent)
      | inr (member, present) ↦ remove_member member present (same ∙ ap is_below present)
    ]

    failed : (w' : World) (e : Error) → Removes w' (err e) → Bans w' (err e)
    failed w' e r = elim (Bool-cases is_bannable) [
      | inl good ↦ let (never, gone, kept) = rw good at r in cc
      | inr bad ↦ rw bad (rw bad at r)
    ]

    finish :
        (w' : World) (done : Done)
        → PairMap.get server.id target w.bans ≡ none
        → Removes w' (ok done)
        → Responds Bans (create_ban server target reason w')
    finish w' done fresh r = elim (Bool-cases is_bannable) [
      | inl good ↦ let (d, gone, kept) = rw good at r in stored w' good fresh (gone, kept)
      | inr bad ↦ let (same, never) = rw bad at r in absurd (never tt)
    ]

    -- For a valid body, a stored server, a target who is not banned yet and, if a member, is stored under the right
    -- ids and not in a timeout, and a voice module that works: `ban` does not panic. If the target is
    -- neither the caller nor the owner, is no member or ranks strictly below the caller, who holds
    -- BanMembers, then the target is no member afterwards, and the store of bans has gained just
    -- the ban, which is the result. If not, nothing changes and the result is an error.
    pub ban_effect :
        IsServer (some server)
        → HashMap.get server.id w.servers ≡ some server
        → PairMap.get server.id target w.bans ≡ none
        → Responds Bans (ban services user server.id target true reason w)
    unfolding ban
    ban_effect valid found fresh =
        let (v, q, e, lt, flags, rank) = calculation services w user server valid in
        rw found (
          Responds-refuse Bans _ w (target == user.id) Error.cannot_remove_yourself
            (λ self. refused Error.cannot_remove_yourself (ground arith))
            (λ other.
              Responds-refuse Bans _ w (target == server.owner) Error.invalid_operation
                (λ owner. refused Error.invalid_operation (ground arith))
                (λ below. rw e (
                  Responds-if Bans _ w _ (may services w user server 7) _
                    (throw-may services w user server v ChannelPermission.ban_members 7 lt flags
                      (omega arith) refl (omega arith))
                    (λ no_flag.
                      refused (Error.missing_permission ChannelPermission.ban_members)
                        (ground arith))
                    (λ flag. rw rank (
                      Responds-bind Bans _ Removes _ (removes (ground arith))
                        (λ w' f r. failed w' f r) (λ w' done r. finish w' done fresh r)))))))
