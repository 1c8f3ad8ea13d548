-- ===== src/Routes/Standing.antt =====
-- What a user may do on a server, and the rank that the handlers give the user.
use company_backend.Prelude.{
  ℕ, ◌^◌, ◌<◌, ◌≡◌, refl, ap, ◌∙◌, Bool, ◌||◌, Option, none, some, Bool-cases, Option-cases, inl,
  inr, if◌then◌else◌, ◌==◌,
}
use company_backend.Prelude.Int.{ℤ}
use company_backend.Prelude.Bits.{test_bit}
use company_backend.Prelude.PairMap
use company_backend.Models.{User, Server}
use company_backend.Permissions.Calculate.{calculate_server_permissions}
use company_backend.Permissions.FlagBits.{has-single, test_bit-single}
use company_backend.Permissions.Value.{throw_if_lacking_channel_permission}
use company_backend.Permissions.Flags.{ChannelPermission, bits}
use company_backend.DatabaseQuery.State.{DatabasePermissionQuery, new}
use company_backend.DatabaseQuery.Methods.{query}
use company_backend.DatabaseQuery.Ranks.{IsServer}
use company_backend.DatabaseQuery.ServerFlags.{
  server_flag, server_all_flags, above_value, stranger_value, server_permissions_of_member,
  or-false,
}
use company_backend.Permissions.Query.{Returns, Returns-inv}
use company_backend.Result.{Error, ok, err}
use mathlib.Core.Path.{subst}
use company_backend.Routes.World.{World, Services, server_query}
use company_backend.Routes.Ranking.{get_ranking, get_member_rank}

module _ (services : Services) (w : World) (user : User) (server : Server) where
  -- The flag `k` of the user on the server.
  abbrev pub may : ℕ → Bool
  may k = server_flag (server_query services user server w) k

  -- A privileged user and the owner have no rank, nor has a stranger; a member has the least rank
  -- number among the roles held.
  abbrev pub our_rank : Option ℤ
  our_rank =
      if user.privileged || server.owner == user.id
      then none
      else elim (PairMap.get server.id user.id w.members) [
        | none ↦ none
        | some member ↦ some (get_ranking server member)
      ]

  calculate_rank :
      Returns
        (calculate_server_permissions query (server_query services user server w))
        (λ v q. get_member_rank q ≡ some our_rank)
  unfolding get_member_rank new
  calculate_rank =
      let q = server_query services user server w in
      elim (Bool-cases (user.privileged || server.owner == user.id)) [
        | inl above ↦ rw (above_value q above, above) refl
        | inr below ↦
            let (p, o) = or-false user.privileged (server.owner == user.id) below in
            elim (Option-cases (PairMap.get server.id user.id w.members)) [
              | inl e ↦ rw (stranger_value q p o e, below, e) refl
              | inr (m, e) ↦ rw (server_permissions_of_member q m p o e, below, e) refl
            ]
      ]

  -- The calculation that the handlers begin with.
  pub calculation :
      IsServer (some server)
      → (v : ℕ) × (q : DatabasePermissionQuery) × (calculate_server_permissions query
            (server_query services user server w)
          ≡ some (v, q))
        × (v < 2 ^ 64)
        × ((k : ℕ) → k < 64 → test_bit v k ≡ may k)
        × (get_member_rank q ≡ some our_rank)
  unfolding new
  calculation valid =
      let q = server_query services user server w in
      let (v, q', e, (lt, flags)) =
        Returns-inv _ (calculate_server_permissions query q) (server_all_flags q valid) in
      let rank =
        subst (λ r. Returns r (λ v q. get_member_rank q ≡ some our_rank)) e calculate_rank in
      (v, q', e, lt, flags, rank)

-- The guard for a single flag looks at that flag.
throw_single :
    (p : ℕ) (c : ChannelPermission) (j : ℕ)
    → p < 2 ^ 64
    → bits c < 2 ^ 64
    → bits c ≡ 2 ^ j
    → j < 64
    → throw_if_lacking_channel_permission p c
      ≡ (if test_bit p j then ok tt else err (Error.missing_permission c))
unfolding throw_if_lacking_channel_permission
throw_single p c j f g e l =
    rw (has-single p (bits c) j f g l (λ k m. ap (λ n. test_bit n k) e ∙ test_bit-single j k l m))
      refl

module _ (services : Services) (w : World) (user : User) (server : Server) where
  -- The guard of a handler for a single flag, after the calculation.
  pub throw-may :
      (v : ℕ) (c : ChannelPermission) (j : ℕ)
      → v < 2 ^ 64
      → ((k : ℕ) → k < 64 → test_bit v k ≡ may services w user server k)
      → bits c < 2 ^ 64
      → bits c ≡ 2 ^ j
      → j < 64
      → throw_if_lacking_channel_permission v c
        ≡ (if may services w user server j then ok tt else err (Error.missing_permission c))
  throw-may v c j lt flags g e l =
      throw_single v c j lt g e l
      ∙ ap (λ b. if b then ok tt else err (Error.missing_permission c)) (flags j l)
