-- ===== src/Users/Pairs.antt =====
-- What applying a relationship does to the two statuses, in the store and in memory.
use company_backend.Prelude.{Ident, ◌≡◌, sym, ◌≢◌, some, ◌∷◌, ◌++◌, [], arith, ◌==◌, if◌then◌else◌}
use company_backend.Prelude.HashMap.{get, insert, get-insert}
use company_backend.Models.{RelationshipStatus, User}
use company_backend.Result.{Result, ok, err, Done}
use company_backend.Users.Reference.{with_relation, kept}
use company_backend.Users.Relations.{listed-changed, listed-changed_other, set_relationship-stored}
use company_backend.Users.{
  State, user_relationship, relationship_with, set_relationship, apply_relationship,
}

-- The statuses of `self` for `target` and of `target` for `self`.
abbrev pub ours : State → RelationshipStatus
ours s = relationship_with s.self s.target.id

abbrev pub theirs : State → RelationshipStatus
theirs s = relationship_with s.target s.self.id

-- The users in memory are two users, and the store holds both as they are.
abbrev pub IsStored : State → Type 0
IsStored s =
    (s.self.id ≢ s.target.id)
    × (get s.self.id s.users ≡ some s.self)
    × (get s.target.id s.users ≡ some s.target)

-- What an operation that goes through leaves: the two new statuses, both users stored, and no
-- change to other users or to what the two hold of others.
abbrev pub IsRelated : RelationshipStatus → RelationshipStatus → State → State → Type 0
IsRelated a b s s' =
    (ours s' ≡ a)
    × (theirs s' ≡ b)
    × IsStored s'
    × ((id : Ident)
        → get id s'.users ≡ (
            if s.self.id == id
            then some s'.self
            else if s.target.id == id
            then some s'.target
            else get id s.users))
    × ((id : Ident)
        → relationship_with s'.self id
          ≡ (if s.target.id == id then a else relationship_with s.self id))
    × ((id : Ident)
        → relationship_with s'.target id
          ≡ (if s.self.id == id then b else relationship_with s.target id))

-- The state after both changes are made.
abbrev pub joined : RelationshipStatus → RelationshipStatus → State → State
joined local remote s =
    let we = with_relation s.target.id local s.self in
    let target = with_relation s.self.id remote s.target in
    record {
      users = insert s.self.id we (insert s.target.id target s.users);
      self = we;
      target = target;
      sent =
          s.sent
          ++ (user_relationship s.target.id we target ∷ user_relationship s.self.id target we ∷ []);
    }

pub apply_relationship-exact :
    (local remote : RelationshipStatus) (s : State)
    → IsStored s
    → apply_relationship local remote s ≡ (joined local remote s, ok tt)
unfolding apply_relationship set_relationship
apply_relationship-exact local remote s h =
    let target = with_relation s.self.id remote s.target in
    let users = insert s.target.id target s.users in
    ground (
      arith,
      set_relationship-stored s.target.id s.self.id remote s.users s.target h.2,
      get-insert s.target.id s.self.id target s.users,
      set_relationship-stored s.self.id s.target.id local users s.self,
    )

status-with_relation :
    (id : Ident) (status : RelationshipStatus) (user : User)
    → user.id ≢ id
    → relationship_with (with_relation id status user) id ≡ kept status
unfolding relationship_with
status-with_relation id status user h = ground (arith, listed-changed id status user.relations)

status_after :
    (id other : Ident) (status : RelationshipStatus) (user : User)
    → user.id ≢ id
    → relationship_with (with_relation id status user) other
      ≡ (if id == other then kept status else relationship_with user other)
unfolding relationship_with
status_after id other status user h = ground (
  arith,
  listed-changed id status user.relations,
  listed-changed_other id other status user.relations,
)

get-joined :
    (local remote : RelationshipStatus) (s : State) (id : Ident)
    → get id (joined local remote s).users ≡ (
        if s.self.id == id
        then some (with_relation s.target.id local s.self)
        else if s.target.id == id
        then some (with_relation s.self.id remote s.target)
        else get id s.users)
get-joined local remote s id =
    let we = with_relation s.target.id local s.self in
    let target = with_relation s.self.id remote s.target in
    ground (
      arith,
      get-insert s.self.id id we (insert s.target.id target s.users),
      get-insert s.target.id id target s.users,
    )

joined-IsStored :
    (local remote : RelationshipStatus) (s : State) → IsStored s → IsStored (joined local remote s)
joined-IsStored local remote s h =
    ground (arith, get-joined local remote s s.self.id, get-joined local remote s s.target.id)

joined-IsRelated :
    (local remote : RelationshipStatus) (s : State)
    → IsStored s
    → IsRelated (kept local) (kept remote) s (joined local remote s)
joined-IsRelated local remote s h = (
  status-with_relation s.target.id local s.self h.0,
  status-with_relation s.self.id remote s.target (λ e. h.0 (sym e)),
  joined-IsStored local remote s h,
  get-joined local remote s,
  (λ id. status_after s.target.id id local s.self h.0),
  (λ id. status_after s.self.id id remote s.target (λ e. h.0 (sym e))),
)

-- What a run leaves, against what the state machine says: an error changes nothing.
abbrev pub Agrees :
    State → State × Result Done → Result (RelationshipStatus × RelationshipStatus) → Type 0
Agrees s (s', r) (err e) = (s' ≡ s) × (r ≡ err e)
Agrees s (s', r) (ok (a, b)) = (r ≡ ok tt) × IsRelated a b s s'

pub apply-Agrees :
    (local remote : RelationshipStatus) (s : State)
    → IsStored s
    → Agrees s (apply_relationship local remote s) (ok (kept local, kept remote))
apply-Agrees local remote s h =
    ground (arith, apply_relationship-exact local remote s h, joined-IsRelated local remote s h)
