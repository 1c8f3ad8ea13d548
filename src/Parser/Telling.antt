-- ===== src/Parser/Telling.antt =====
-- What the results of the parser say of the tokens.
use company_backend.Prelude.{
  Ident, ◌≡◌, Bool, true, false, ◌||◌, List, [], ◌∷◌, contains, arith, ◌==◌,
}
use company_backend.Prelude.HashSet.{contains-insert}
use company_backend.Parser.{MessageToken, MessageResults, note, gather}

-- Whether a list of tokens mentions a user, a role, everyone, or those online.
abbrev pub is_user : Ident → MessageToken → Bool
is_user id (MessageToken.user_mention u) = u == id
is_user id _ = false

abbrev pub is_role : Ident → MessageToken → Bool
is_role id (MessageToken.role_mention u) = u == id
is_role id _ = false

abbrev pub is_everyone : MessageToken → Bool
is_everyone MessageToken.mention_everyone = true
is_everyone _ = false

abbrev pub is_online : MessageToken → Bool
is_online MessageToken.mention_online = true
is_online _ = false

abbrev pub any {ℓ} : {A : Type ℓ} → (A → Bool) → List A → Bool
any p [] = false
any p (x ∷ xs) = p x || any p xs

-- What the results say of the tokens, on top of what was said before.
abbrev pub Tells : List MessageToken → MessageResults → MessageResults → Type 0
Tells out r r' =
    ((id : Ident)
      → contains r'.user_mentions id ≡ (contains r.user_mentions id || any (is_user id) out))
    × ((id : Ident)
        → contains r'.role_mentions id ≡ (contains r.role_mentions id || any (is_role id) out))
    × (r'.mentions_everyone ≡ (r.mentions_everyone || any is_everyone out))
    × (r'.mentions_online ≡ (r.mentions_online || any is_online out))

note-Tells : (token : MessageToken) (r : MessageResults) → Tells (token ∷ []) r (note token r)
note-Tells MessageToken.escape r = ground arith
note-Tells (MessageToken.codeblock_marker ty) r = ground arith
note-Tells (MessageToken.user_mention u) r = (
  λ id. ground (arith, contains-insert u id r.user_mentions),
  ground arith,
  ground arith,
  ground arith,
)
note-Tells (MessageToken.role_mention u) r = (
  ground arith,
  λ id. ground (arith, contains-insert u id r.role_mentions),
  ground arith,
  ground arith,
)
note-Tells MessageToken.mention_everyone r = ground arith
note-Tells MessageToken.mention_online r = ground arith

pub gather-Tells : (out : List MessageToken) (r : MessageResults) → Tells out r (gather out r)
unfolding gather
gather-Tells [] r = ground arith
gather-Tells (token ∷ rest) r =
    let (u, o, e, n) = note-Tells token r in
    let (u', o', e', n') = gather-Tells rest (note token r) in
    (
      (λ id. ground (arith, u id, u' id)),
      (λ id. ground (arith, o id, o' id)),
      ground arith,
      ground arith,
    )
