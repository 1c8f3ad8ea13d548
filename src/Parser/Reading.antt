-- ===== src/Parser/Reading.antt =====
-- What counts as mentioned in a message.
use company_backend.Prelude.{
  ℕ, zero, suc, Ident, ◌+◌, ◌≤◌, ◌<◌, ◌≡◌, refl, ap, Option, none, some, List, [], ◌∷◌, ◌++◌,
  length, arith, Option-cases, inl, inr, if◌then◌else◌,
}
use mathlib.Core.List.{append-nil, append_assoc}
use company_backend.Parser.{
  MessageToken, MessageResults, MessageParserIterator, is_marker, close, tail, next, collect, start,
  gather, no_mentions, parse_message,
}
use company_backend.Parser.Telling.{Tells, gather-Tells}

-- What follows the next marker of a kind, if there is one.
abbrev pub after : ℕ → List MessageToken → Option (List MessageToken)
after ty [] = none
after ty (token ∷ rest) = if is_marker ty token then some rest else after ty rest

-- How the tokens of a message are read.
pub data Reads : List MessageToken → List MessageToken → Type 0 where
  nothing : Reads [] []
  -- An escape hides the token behind it.
  escaped :
      {rest out : List MessageToken}
      → Reads (tail rest) out
      → Reads (MessageToken.escape ∷ rest) (MessageToken.escape ∷ out)
  -- A closed block hides all that is in it.
  block :
      {ty : ℕ} {inside rest out : List MessageToken}
      → after ty inside ≡ some rest
      → Reads rest out
      → Reads
          (MessageToken.codeblock_marker ty ∷ inside)
          (MessageToken.codeblock_marker ty ∷ MessageToken.codeblock_marker ty ∷ out)
  -- Behind a marker that nothing closes, every token counts, also escaped ones and those in other
  -- blocks.
  unclosed :
      {ty : ℕ} {rest : List MessageToken}
      → after ty rest ≡ none
      → Reads (MessageToken.codeblock_marker ty ∷ rest) (MessageToken.codeblock_marker ty ∷ rest)
  user :
      {id : Ident} {rest out : List MessageToken}
      → Reads rest out
      → Reads (MessageToken.user_mention id ∷ rest) (MessageToken.user_mention id ∷ out)
  role :
      {id : Ident} {rest out : List MessageToken}
      → Reads rest out
      → Reads (MessageToken.role_mention id ∷ rest) (MessageToken.role_mention id ∷ out)
  everyone :
      {rest out : List MessageToken}
      → Reads rest out
      → Reads (MessageToken.mention_everyone ∷ rest) (MessageToken.mention_everyone ∷ out)
  online :
      {rest out : List MessageToken}
      → Reads rest out
      → Reads (MessageToken.mention_online ∷ rest) (MessageToken.mention_online ∷ out)

close_found :
    (ty : ℕ) (rest temp found : List MessageToken)
    → after ty rest ≡ some found
    → close ty rest temp ≡ (
      MessageToken.codeblock_marker ty,
      record { inner = found; temp = MessageToken.codeblock_marker ty ∷ [] },
    )
unfolding close
close_found ty [] temp found h = cc
close_found ty (MessageToken.escape ∷ rest) temp found h = close_found ty rest _ found h
close_found ty (MessageToken.codeblock_marker k ∷ rest) temp found h =
    ground (arith, close_found ty rest (temp ++ (MessageToken.codeblock_marker k ∷ [])) found)
close_found ty (MessageToken.user_mention id ∷ rest) temp found h = close_found ty rest _ found h
close_found ty (MessageToken.role_mention id ∷ rest) temp found h = close_found ty rest _ found h
close_found ty (MessageToken.mention_everyone ∷ rest) temp found h = close_found ty rest _ found h
close_found ty (MessageToken.mention_online ∷ rest) temp found h = close_found ty rest _ found h

close_missing :
    (ty : ℕ) (rest temp : List MessageToken)
    → after ty rest ≡ none
    → close ty rest temp
      ≡ (MessageToken.codeblock_marker ty, record { inner = []; temp = temp ++ rest })
unfolding close
close_missing ty [] temp h = ground (arith, append-nil temp)
close_missing ty (token ∷ rest) temp h =
    ground
      (arith, close_missing ty rest (temp ++ (token ∷ [])), append_assoc temp (token ∷ []) rest)

after-lt :
    (ty : ℕ) (rest found : List MessageToken)
    → after ty rest ≡ some found
    → length found < length rest
after-lt ty [] found h = cc
after-lt ty (token ∷ rest) found h = ground (arith, after-lt ty rest found)

drained :
    (fuel : ℕ) (temp : List MessageToken)
    → length temp < fuel
    → collect fuel (record { inner = []; temp = temp }) ≡ some temp
unfolding collect
drained zero temp h = absurd (omega arith)
drained (suc fuel) [] h = refl
drained (suc fuel) (token ∷ rest) h = rw (drained fuel rest (omega arith)) refl

-- A reading of the tokens, which the iterator yields with this much fuel.
abbrev Yields : ℕ → List MessageToken → Type 0
Yields fuel tokens =
    (out : List MessageToken) × Reads tokens out × (collect fuel (start tokens) ≡ some out)

length-tail-le : (xs : List MessageToken) → length (tail xs) ≤ length xs
length-tail-le [] = omega arith
length-tail-le (x ∷ xs) = omega arith

collect-step :
    (fuel : ℕ) (it it' : MessageParserIterator) (token : MessageToken) (out : List MessageToken)
    → next it ≡ some (token, it')
    → collect fuel it' ≡ some out
    → collect (suc fuel) it ≡ some (token ∷ out)
unfolding collect
collect-step fuel it it' token out h e = ground arith

collect_block :
    (fuel ty : ℕ) (inside rest out : List MessageToken)
    → after ty inside ≡ some rest
    → collect fuel (start rest) ≡ some out
    → collect (suc (suc fuel)) (start (MessageToken.codeblock_marker ty ∷ inside))
      ≡ some (MessageToken.codeblock_marker ty ∷ MessageToken.codeblock_marker ty ∷ out)
unfolding next
collect_block fuel ty inside rest out h e =
    collect-step (suc fuel) _ _ _ _ (ap some (close_found ty inside [] rest h))
      (collect-step fuel _ (start rest) _ _ refl e)

collect_unclosed :
    (fuel ty : ℕ) (rest : List MessageToken)
    → after ty rest ≡ none
    → length rest < fuel
    → collect (suc fuel) (start (MessageToken.codeblock_marker ty ∷ rest))
      ≡ some (MessageToken.codeblock_marker ty ∷ rest)
unfolding next
collect_unclosed fuel ty rest h l =
    collect-step fuel _ _ _ _ (ap some (close_missing ty rest [] h)) (drained fuel rest l)

reading : (fuel : ℕ) (tokens : List MessageToken) → length tokens < fuel → Yields fuel tokens
unfolding next
reading zero tokens h = absurd (omega arith)
reading (suc fuel) [] h = ([], nothing, unfold collect in refl)
reading (suc zero) (token ∷ rest) h = absurd (omega arith)
reading (suc (suc fuel)) (MessageToken.escape ∷ rest) h =
    let (out, r, e) = reading (suc fuel) (tail rest) (omega (arith, length-tail-le rest)) in
    (MessageToken.escape ∷ out, escaped r, collect-step (suc fuel) _ (start (tail rest)) _ _ refl e)
reading (suc (suc fuel)) (MessageToken.codeblock_marker ty ∷ inside) h =
    elim (Option-cases (after ty inside)) [
      | inl e ↦ (
        MessageToken.codeblock_marker ty ∷ inside,
        unclosed e,
        collect_unclosed (suc fuel) ty inside e (omega arith),
      )
      | inr (rest, e) ↦
          let (out, r, c) = reading fuel rest (omega (arith, after-lt ty inside rest e)) in
          (
            MessageToken.codeblock_marker ty ∷ MessageToken.codeblock_marker ty ∷ out,
            block e r,
            collect_block fuel ty inside rest out e c,
          )
    ]
reading (suc (suc fuel)) (MessageToken.user_mention id ∷ rest) h =
    let (out, r, e) = reading (suc fuel) rest (omega arith) in
    (MessageToken.user_mention id ∷ out, user r, collect-step (suc fuel) _ (start rest) _ _ refl e)
reading (suc (suc fuel)) (MessageToken.role_mention id ∷ rest) h =
    let (out, r, e) = reading (suc fuel) rest (omega arith) in
    (MessageToken.role_mention id ∷ out, role r, collect-step (suc fuel) _ (start rest) _ _ refl e)
reading (suc (suc fuel)) (MessageToken.mention_everyone ∷ rest) h =
    let (out, r, e) = reading (suc fuel) rest (omega arith) in
    (
      MessageToken.mention_everyone ∷ out,
      everyone r,
      collect-step (suc fuel) _ (start rest) _ _ refl e,
    )
reading (suc (suc fuel)) (MessageToken.mention_online ∷ rest) h =
    let (out, r, e) = reading (suc fuel) rest (omega arith) in
    (MessageToken.mention_online ∷ out, online r, collect-step (suc fuel) _ (start rest) _ _ refl e)

parse_collected :
    (tokens out : List MessageToken)
    → collect (length tokens + 1) (start tokens) ≡ some out
    → parse_message tokens ≡ some (gather out no_mentions)
unfolding parse_message
parse_collected tokens out h = rw (h, parse_message) refl

-- Parsing ends, and the results mention exactly the users, the roles, everyone and those online
-- that stand in a reading of the message: one that leaves out what an escape or a closed block
-- hides.
pub parse_message_reads :
    (tokens : List MessageToken)
    → (out : List MessageToken) × (r : MessageResults) × Reads tokens out
      × (parse_message tokens ≡ some r)
      × Tells out no_mentions r
unfolding parse_message
parse_message_reads tokens =
    let (out, reads, e) = reading (length tokens + 1) tokens (omega arith) in
    (out, gather out no_mentions, reads, parse_collected tokens out e, gather-Tells out no_mentions)
