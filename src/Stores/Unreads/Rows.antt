-- ===== src/Stores/Unreads/Rows.antt =====
-- What the operations on unread channels leave in every row.
use company_backend.Prelude.{
  ==_iff, Ident, ◌≡◌, refl, ap, ◌∙◌, Bool, true, false, ◌&&◌, ◌||◌, Option, none, some, List, [],
  ◌∷◌, contains, ◌==◌, if◌then◌else◌, arith, Bool-cases, inl, inr,
}
use company_backend.Prelude.PairMap.{get, insert, get_pair-insert}
use company_backend.Result.{ok}
use company_backend.Stores.Unreads.{
  ChannelUnread, Unreads, acknowledged, acknowledge_message, acknowledge_each, acknowledge_channels,
  mentioned, add_mention_to_many_unreads, fetch_unread,
}

-- A change of one row, which may create it and is not noticed when it is made again.
module _ (f : (channel user : Ident) → Option ChannelUnread → ChannelUnread)
    (twice : (c u : Ident) (r : Option ChannelUnread) → f c u (some (f c u r)) ≡ f c u r) where
  abbrev changed : (channel user : Ident) → Unreads → Unreads
  changed channel user m = insert channel user (f channel user (get channel user m)) m

  -- The row of a key, changed if the test says so.
  abbrev changed_if : Bool → (channel user : Ident) → Unreads → Option ChannelUnread
  changed_if b c u m = if b then some (f c u (get c u m)) else get c u m

  get-changed :
      (d v : Ident) (m : Unreads) (c u : Ident)
      → get c u (changed d v m) ≡ changed_if (d == c && v == u) c u m
  get-changed d v m c u =
      get_pair-insert d v c u (f d v (get d v m)) m ∙ elim (Bool-cases (d == c)) [
        | inr other ↦ rw other refl
        | inl here ↦ elim (Bool-cases (v == u)) [
          | inr other ↦ rw (here, other) refl
          | inl own ↦ rw (here, own) (rw ((==_iff d c).0 here, (==_iff v u).0 own) refl)
        ]
      ]

  changed_again :
      (a b : Bool) (m m' : Unreads) (c u : Ident)
      → get c u m' ≡ changed_if a c u m
      → changed_if b c u m' ≡ changed_if (a || b) c u m
  changed_again true true m m' c u e = rw e (ap some (twice c u (get c u m)))
  changed_again true false m m' c u e = e
  changed_again false true m m' c u e = ap (λ r. some (f c u r)) e
  changed_again false false m m' c u e = e

acknowledged_twice :
    (c u t : Ident) (r : Option ChannelUnread)
    → acknowledged c u t (some (acknowledged c u t r)) ≡ acknowledged c u t r
acknowledged_twice c u t none = refl
acknowledged_twice c u t (some r) = refl

mentioned_twice :
    (ids : List Ident) (c u : Ident) (r : Option ChannelUnread)
    → mentioned c u ids (some (mentioned c u ids r)) ≡ mentioned c u ids r
mentioned_twice ids c u none = refl
mentioned_twice ids c u (some r) = refl

get-acknowledge_each :
    (user time : Ident) (channels : List Ident) (m : Unreads) (c u : Ident)
    → get c u (acknowledge_each user time channels m)
      ≡ changed_if
          (λ c u r. acknowledged c u time r)
          (λ c u. acknowledged_twice c u time)
          (contains channels c && user == u)
          c
          u
          m
unfolding acknowledge_each acknowledge_message
get-acknowledge_each user time [] m c u = refl
get-acknowledge_each user time (d ∷ ds) m c u =
    let f = λ (c u : Ident) (r : Option ChannelUnread). acknowledged c u time r in
    let once = λ (c u : Ident). acknowledged_twice c u time in
    get-acknowledge_each user time ds (changed f once d user m) c u
    ∙ (changed_again f once (d == c && user == u) (contains ds c && user == u) m
          (changed f once d user m) c u (get-changed f once d user m c u)
        ∙ ap (λ b. changed_if f once b c u m) (ground arith))

-- Acknowledging a list of channels marks the user's row of every listed channel as read up to the
-- given time and without mentions, creates the rows that are missing, and leaves every other row,
-- the rows of other users among them, as it was.
fetch_unread-acknowledge_channels :
    (user time : Ident) (channels : List Ident) (m : Unreads) (c u : Ident)
    → fetch_unread u c (acknowledge_channels user time channels m).0
      ≡ ok (
          if contains channels c && user == u
          then some (acknowledged c u time (get c u m))
          else get c u m)
unfolding acknowledge_channels fetch_unread
fetch_unread-acknowledge_channels user time channels m c u =
    ap ok (get-acknowledge_each user time channels m c u)

-- Adding mentions for many users gives the row of every listed user in the channel exactly the new
-- mentions, in place of those it had, creates the rows that are missing, and leaves every other
-- row as it was.
pub fetch_unread-add_mention_to_many_unreads :
    (channel : Ident) (users ids : List Ident) (m : Unreads) (c u : Ident)
    → fetch_unread u c (add_mention_to_many_unreads channel users ids m).0
      ≡ ok (
          if channel == c && contains users u
          then some (mentioned c u ids (get c u m))
          else get c u m)
unfolding add_mention_to_many_unreads fetch_unread
fetch_unread-add_mention_to_many_unreads channel [] ids m c u = ground arith
fetch_unread-add_mention_to_many_unreads channel (v ∷ vs) ids m c u =
    let f = λ (c u : Ident) (r : Option ChannelUnread). mentioned c u ids r in
    let once = mentioned_twice ids in
    fetch_unread-add_mention_to_many_unreads channel vs ids (changed f once channel v m) c u
    ∙ ap ok (
        changed_again f once (channel == c && v == u) (channel == c && contains vs u) m
          (changed f once channel v m) c u (get-changed f once channel v m c u)
        ∙ ap (λ b. changed_if f once b c u m) (ground arith))
