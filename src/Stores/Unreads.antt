-- ===== src/Stores/Unreads.antt =====
-- crates/core/database/src/models/channel_unreads: the store of unread channels, kept in memory.
pub mod Rows
use company_backend.Prelude.{
  ℕ, Ident, Bool, true, false, ◌&&◌, Option, none, some, List, [], ◌∷◌, filter, ◌==◌, if◌then◌else◌,
}
use company_backend.Prelude.PairMap.{PairMap, get, insert, values}
use company_backend.Result.{Result, ok, Done}

pub record ChannelCompositeKey : Type 0 where
  pub channel : Ident
  pub user : Ident

pub record ChannelUnread : Type 0 where
  pub id : ChannelCompositeKey
  pub last_id : Option Ident
  pub mentions : Option (List Ident)

abbrev pub Unreads : Type 0
Unreads = PairMap ChannelUnread

abbrev pub acknowledged : (channel user message_id : Ident) → Option ChannelUnread → ChannelUnread
acknowledged channel user message_id none = record {
  id = record { channel = channel; user = user };
  last_id = some message_id;
  mentions = none;
}
acknowledged channel user message_id (some unread) = record unread {
  last_id = some message_id;
  mentions = none;
}

unfoldable pub acknowledge_message :
    (channel_id user_id message_id : Ident) → Unreads → Unreads × Result (Option ChannelUnread)
acknowledge_message channel_id user_id message_id m =
    let m' =
      insert channel_id user_id
        (acknowledged channel_id user_id message_id (get channel_id user_id m)) m in
    (m', ok (get channel_id user_id m'))

-- The loop of `acknowledge_channels`; `current_time` is a fresh id. No step of it fails.
unfoldable pub acknowledge_each : (user_id current_time : Ident) → List Ident → Unreads → Unreads
unfolding acknowledge_message
acknowledge_each user_id current_time [] m = m
acknowledge_each user_id current_time (channel_id ∷ channel_ids) m =
    acknowledge_each user_id current_time channel_ids
      (acknowledge_message channel_id user_id current_time m).0

unfoldable pub acknowledge_channels :
    (user_id current_time : Ident) → List Ident → Unreads → Unreads × Result Done
unfolding acknowledge_each
acknowledge_channels user_id current_time channel_ids m =
    (acknowledge_each user_id current_time channel_ids m, ok tt)

abbrev pub mentioned : (channel user : Ident) → List Ident → Option ChannelUnread → ChannelUnread
mentioned channel user message_ids none = record {
  id = record { channel = channel; user = user };
  last_id = none;
  mentions = some message_ids;
}
mentioned channel user message_ids (some unread) = record unread { mentions = some message_ids }

unfoldable pub add_mention_to_unread :
    (channel_id user_id : Ident) → List Ident → Unreads → Unreads × Result Done
add_mention_to_unread channel_id user_id message_ids m = (
  insert channel_id user_id (mentioned channel_id user_id message_ids (get channel_id user_id m)) m,
  ok tt,
)

unfoldable pub add_mention_to_many_unreads :
    Ident → List Ident → List Ident → Unreads → Unreads × Result Done
add_mention_to_many_unreads channel_id [] message_ids m = (m, ok tt)
add_mention_to_many_unreads channel_id (user_id ∷ user_ids) message_ids m =
    add_mention_to_many_unreads channel_id user_ids message_ids (
      insert channel_id user_id
        (mentioned channel_id user_id message_ids (get channel_id user_id m)) m)

abbrev pub has_mentions : ChannelUnread → Bool
has_mentions unread = elim unread.mentions [ none ↦ false | some _ ↦ true ]

unfoldable pub fetch_unread_mentions : Ident → Unreads → Result (List ChannelUnread)
fetch_unread_mentions user_id m =
    ok (filter (λ unread. unread.id.user == user_id && has_mentions unread) (values m))

unfoldable pub fetch_unreads : Ident → Unreads → Result (List ChannelUnread)
fetch_unreads user_id m = ok (filter (λ unread. unread.id.user == user_id) (values m))

unfoldable pub fetch_unread : (user_id channel_id : Ident) → Unreads → Result (Option ChannelUnread)
fetch_unread user_id channel_id m = ok (get channel_id user_id m)
