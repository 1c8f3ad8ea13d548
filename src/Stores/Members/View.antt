-- ===== src/Stores/Members/View.antt =====
-- The store of server members, one row at a time.
use company_backend.Prelude.{
  ==_iff, ℕ, Ident, ◌≡◌, refl, ◌&&◌, Option, none, some, ◌==◌, if◌then◌else◌, Bool-cases,
  Option-cases, inl, inr,
}
use company_backend.Prelude.PairMap.{get, get_pair-insert, get_pair-remove}
use company_backend.Models.{Member, MemberCompositeKey}
use company_backend.Result.{Error, Result, ok, err, Done}
use company_backend.DatabaseQuery.State.{in_timeout}
use company_backend.Stores.Members.{
  Members, insert_or_merge_member, update_member, force_delete_member, soft_delete_member,
}

-- The operations that change the store.
pub data Operation : Type 0 where
  insert_one : Member → Operation
  update_one : MemberCompositeKey → (Member → Member) → Operation
  force_delete : MemberCompositeKey → Operation
  soft_delete : MemberCompositeKey → Operation

-- An insertion gives no row back.
abbrev done : Members × Result (Option Member) → Members × Result Done
done (m, ok _) = (m, ok tt)
done (m, err e) = (m, err e)

unfoldable pub run : (now : ℕ) → Operation → Members → Option (Members × Result Done)
unfolding insert_or_merge_member update_member force_delete_member soft_delete_member
run now (Operation.insert_one member) m = some (done (insert_or_merge_member member m))
run now (Operation.update_one id change) m = some (update_member id change m)
run now (Operation.force_delete id) m = some (force_delete_member id m)
run now (Operation.soft_delete id) m = soft_delete_member now id m

abbrev pub key : Operation → MemberCompositeKey
key (Operation.insert_one member) = member.id
key (Operation.update_one id change) = id
key (Operation.force_delete id) = id
key (Operation.soft_delete id) = id

-- What is promised of the row: its new value, and the result of the call.
unfoldable pub promised :
    (now : ℕ) → Operation → Option Member → Option (Option Member × Result Done)
promised now (Operation.insert_one member) none = some (some member, ok tt)
promised now (Operation.insert_one member) (some old) = some (some old, err Error.database_error)
promised now operation none = some (none, err Error.not_found)
promised now (Operation.update_one id change) (some old) = some (some (change old), ok tt)
promised now (Operation.force_delete id) (some old) = some (none, ok tt)
promised now (Operation.soft_delete id) (some old) =
    if in_timeout now old then none else some (none, ok tt)

-- The row of the key has the new value, and the others are as before.
abbrev pub Wrote : MemberCompositeKey → Option Member → (m m' : Members) → Type 0
Wrote id row m m' =
    (server user : Ident)
    → get server user m'
      ≡ (if id.server == server && id.user == user then row else get server user m)

-- The call keeps the promise.
abbrev pub Keeps :
    MemberCompositeKey
    → Members
    → Option (Members × Result Done)
    → Option (Option Member × Result Done)
    → Type 0
Keeps id m none none = Unit
Keeps id m (some (m', r)) (some (row, r')) = (r ≡ r') × Wrote id row m m'
Keeps id m _ _ = ⊥

unchanged-Wrote :
    (id : MemberCompositeKey) (row : Option Member) (m : Members)
    → get id.server id.user m ≡ row
    → Wrote id row m m
unchanged-Wrote id row m e server user = elim (Bool-cases (id.server == server)) [
  | inr other ↦ rw other refl
  | inl here ↦ elim (Bool-cases (id.user == user)) [
    | inr other ↦ rw (here, other) refl
    | inl own ↦
        rw (here, own) (rw ((==_iff id.server server).0 here, (==_iff id.user user).0 own) at e)
  ]
]

-- Every operation on the store does to the row of its key what a single row promises and leaves
-- every other row as it was: a failed call changes nothing, an insertion fails on a member that is
-- there, every other operation fails on one that is not, and only a soft deletion of a member in a
-- timeout panics.
pub run-Keeps :
    (now : ℕ) (operation : Operation) (m : Members)
    → Keeps
        (key operation)
        m
        (run now operation m)
        (promised now operation (get (key operation).server (key operation).user m))
unfolding run promised
run-Keeps now (Operation.insert_one member) m =
    elim (Option-cases (get member.id.server member.id.user m)) [
      | inl new ↦
          rw (run, insert_or_merge_member, promised, new)
            (refl, λ c d. get_pair-insert member.id.server member.id.user c d member m)
      | inr (old, there) ↦
          rw (run, insert_or_merge_member, promised, there)
            (refl, unchanged-Wrote member.id (some old) m there)
    ]
run-Keeps now (Operation.update_one id change) m = elim (Option-cases (get id.server id.user m)) [
  | inl missing ↦
      rw (run, update_member, promised, missing) (refl, unchanged-Wrote id none m missing)
  | inr (old, there) ↦
      rw (run, update_member, promised, there)
        (refl, λ c d. get_pair-insert id.server id.user c d (change old) m)
]
run-Keeps now (Operation.force_delete id) m = elim (Option-cases (get id.server id.user m)) [
  | inl missing ↦
      rw (run, force_delete_member, promised, missing) (refl, unchanged-Wrote id none m missing)
  | inr (old, there) ↦
      rw (run, force_delete_member, promised, there)
        (refl, λ c d. get_pair-remove id.server id.user c d m)
]
run-Keeps now (Operation.soft_delete id) m = elim (Option-cases (get id.server id.user m)) [
  | inl missing ↦
      rw (run, soft_delete_member, promised, missing) (refl, unchanged-Wrote id none m missing)
  | inr (old, there) ↦ elim (Bool-cases (in_timeout now old)) [
    | inl timed ↦ rw (run, soft_delete_member, promised, there, timed) tt
    | inr free ↦
        rw (run, soft_delete_member, promised, there, free)
          (refl, λ c d. get_pair-remove id.server id.user c d m)
  ]
]
