-- ===== src/Tests/Relationships.antt =====
-- Two users and their relationships.
use company_backend.Prelude.{◌≢◌, refl, false, none, some, [], ◌∷◌, arith}
use company_backend.Prelude.HashMap.{get}
use company_backend.Models.{RelationshipStatus, User}
use company_backend.Result.{Error, err}
use company_backend.Users.{State, relationship_with}
use company_backend.Users.Status.{Action, next, IsPair, asked}
use company_backend.Users.Pairs.{ours, theirs, IsStored, Agrees}
use company_backend.Users.Actions.{run, limit_reached, run-Agrees, run-IsPair}

abbrev ann : User
ann = record {
  id = 1;
  username = 100;
  discriminator = 1;
  relations = some (record { id = 2; status = RelationshipStatus.incoming } ∷ []);
  privileged = false;
  bot = none;
}

abbrev ben : User
ben = record {
  id = 2;
  username = 200;
  discriminator = 1;
  relations = some (record { id = 1; status = RelationshipStatus.outgoing } ∷ []);
  privileged = false;
  bot = none;
}

abbrev request_open : State
request_open = record { users = (1, ann) ∷ (2, ben) ∷ []; self = ann; target = ben; sent = [] }

abbrev request_open-IsStored : IsStored request_open
unfolding get
request_open-IsStored = (omega arith, refl, refl)

run-Agrees_example :
    Agrees request_open
      (run 10 Action.add request_open)
      (next (limit_reached 10 request_open) Action.add (ours request_open) (theirs request_open))
run-Agrees_example = run-Agrees 10 Action.add request_open request_open-IsStored

run-IsPair_example :
    let (s', r) = run 10 Action.add request_open in
    IsStored s' × IsPair (ours s') (theirs s') × (r ≢ err Error.internal_error)
unfolding relationship_with
run-IsPair_example = run-IsPair 10 Action.add request_open request_open-IsStored asked
