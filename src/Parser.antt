-- ===== src/Parser.antt =====
-- crates/core/parser/src/lib.rs: the mentions in a message. The lexer is generated by the crate
-- logos from the patterns on the token type; here a text is the list of its tokens.
pub mod Telling
pub mod Reading
use company_backend.Prelude.{
  ℕ, zero, suc, Ident, ◌+◌, Bool, true, false, Option, none, some, List, [], ◌∷◌, ◌++◌, length,
  contains, ◌==◌, if◌then◌else◌,
}
use company_backend.Prelude.HashSet.{HashSet, insert}

-- `codeblock_marker` holds the number of backticks.
pub data MessageToken : Type 0 where
  escape : MessageToken
  codeblock_marker : ℕ → MessageToken
  user_mention role_mention : Ident → MessageToken
  mention_everyone mention_online : MessageToken

pub record MessageResults : Type 0 where
  pub user_mentions : HashSet
  pub role_mentions : HashSet
  pub mentions_everyone : Bool
  pub mentions_online : Bool

pub record MessageParserIterator : Type 0 where
  pub inner : List MessageToken
  pub temp : List MessageToken

abbrev pub is_marker : ℕ → MessageToken → Bool
is_marker ty (MessageToken.codeblock_marker k) = k == ty
is_marker ty _ = false

-- The loop that looks for the closing marker; `temp` is empty when it starts.
unfoldable pub close :
    ℕ → List MessageToken → List MessageToken → MessageToken × MessageParserIterator
close ty [] temp = (MessageToken.codeblock_marker ty, record { inner = []; temp = temp })
close ty (token ∷ rest) temp =
    let further = close ty rest (temp ++ (token ∷ [])) in
    if is_marker ty token
    then (token, record { inner = rest; temp = MessageToken.codeblock_marker ty ∷ [] })
    else further

abbrev pub tail {ℓ} : {A : Type ℓ} → List A → List A
tail [] = []
tail (x ∷ xs) = xs

-- `next`, where `temp` is empty.
unfoldable pub next_inner : List MessageToken → Option (MessageToken × MessageParserIterator)
unfolding close
next_inner [] = none
next_inner (MessageToken.escape ∷ rest) =
    some (MessageToken.escape, record { inner = tail rest; temp = [] })
next_inner (MessageToken.codeblock_marker ty ∷ rest) = some (close ty rest [])
next_inner (token ∷ rest) = some (token, record { inner = rest; temp = [] })

unfoldable pub next : MessageParserIterator → Option (MessageToken × MessageParserIterator)
unfolding next_inner
next it = elim it.temp [
  | token ∷ rest ↦ some (token, record it { temp = rest })
  | [] ↦ next_inner it.inner
]

-- The tokens that the iterator yields; `none` if the fuel runs out.
unfoldable pub collect : ℕ → MessageParserIterator → Option (List MessageToken)
unfolding next
collect zero it = none
collect (suc fuel) it = elim (next it) [
  | none ↦ some []
  | some (token, it') ↦ elim (collect fuel it') [ none ↦ none | some out ↦ some (token ∷ out) ]
]

abbrev pub start : List MessageToken → MessageParserIterator
start tokens = record { inner = tokens; temp = [] }

-- `parse_message_iter`, run to its end.
unfoldable pub parse_message_iter : List MessageToken → Option (List MessageToken)
unfolding collect
parse_message_iter tokens = collect (length tokens + 1) (start tokens)

-- The body of the loop of `parse_message`.
abbrev pub note : MessageToken → MessageResults → MessageResults
note MessageToken.escape r = r
note (MessageToken.codeblock_marker _) r = r
note (MessageToken.user_mention id) r = record r { user_mentions = insert id r.user_mentions }
note (MessageToken.role_mention id) r = record r { role_mentions = insert id r.role_mentions }
note MessageToken.mention_everyone r = record r { mentions_everyone = true }
note MessageToken.mention_online r = record r { mentions_online = true }

unfoldable pub gather : List MessageToken → MessageResults → MessageResults
gather [] r = r
gather (token ∷ rest) r = gather rest (note token r)

abbrev pub no_mentions : MessageResults
no_mentions = record {
  user_mentions = [];
  role_mentions = [];
  mentions_everyone = false;
  mentions_online = false;
}

unfoldable pub parse_message : List MessageToken → Option MessageResults
unfolding parse_message_iter gather
parse_message tokens = elim (parse_message_iter tokens) [
  | none ↦ none
  | some out ↦ some (gather out no_mentions)
]
