-- ===== src/Tests/Stores.antt =====
-- The stores of members and of unread channels on a few rows.
use company_backend.Prelude.{◌≡◌, some, [], ◌∷◌}
use company_backend.Prelude.PairMap.{get}
use company_backend.Models.{MemberCompositeKey}
use company_backend.Result.{ok}
use company_backend.Stores.Members.{Members}
use company_backend.Stores.Members.View.{Operation, run, promised, Keeps, run-Keeps}
use company_backend.Stores.Unreads.{
  ChannelUnread, Unreads, add_mention_to_many_unreads, fetch_unread,
}
use company_backend.Stores.Unreads.Rows.{fetch_unread-add_mention_to_many_unreads}
use company_backend.Tests.Queries.{guest}

abbrev members : Members
members = ((10, 1), guest) ∷ []

abbrev guest_id : MemberCompositeKey
guest_id = record { server = 10; user = 1 }

run-Keeps_example :
    Keeps guest_id members
      (run 1_000 (Operation.soft_delete guest_id) members)
      (promised 1_000 (Operation.soft_delete guest_id) (some guest))
unfolding get
run-Keeps_example = run-Keeps 1_000 (Operation.soft_delete guest_id) members

abbrev unread : ChannelUnread
unread = record {
  id = record { channel = 20; user = 1 };
  last_id = some 5;
  mentions = some (6 ∷ []);
}

abbrev unreads : Unreads
unreads = ((20, 1), unread) ∷ []

fetch_unread-add_mention_to_many_unreads_example :
    fetch_unread 1 20 (add_mention_to_many_unreads 20 (1 ∷ 2 ∷ []) (8 ∷ []) unreads).0
    ≡ ok (some (record unread { mentions = some (8 ∷ []) }))
unfolding get
fetch_unread-add_mention_to_many_unreads_example =
    fetch_unread-add_mention_to_many_unreads 20 (1 ∷ 2 ∷ []) (8 ∷ []) unreads 20 1
