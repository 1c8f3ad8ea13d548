-- ===== src/Events/Ready/Displacement.antt =====
-- Whose member a connection caches for a server.
use company_backend.Prelude.{
  Ident, ◌≡◌, refl, ap, sym, ◌∙◌, Option, none, some, List, [], ◌∷◌, ◌++◌, Bool-cases, inl, inr,
  ◌==◌, if◌then◌else◌,
}
use company_backend.Prelude.HashMap.{HashMap, get, insert, get-insert}
use company_backend.Models.{Member}
use company_backend.Events.Ready.{collect_members, extend_by_voice, ready_members}

-- The last member of a server in a list, or else the one given.
abbrev pub last_of : Ident → List Member → Option Member → Option Member
last_of server [] row = row
last_of server (m ∷ ms) row = last_of server ms (if m.id.server == server then some m else row)

get-collect_members :
    (server : Ident) (ms : List Member) (index : HashMap Member)
    → get server (collect_members ms index) ≡ last_of server ms (get server index)
unfolding collect_members
get-collect_members server [] index = refl
get-collect_members server (m ∷ ms) index =
    get-collect_members server ms (insert m.id.server m index)
    ∙ ap (last_of server ms) (get-insert m.id.server server m index)

last_of-append :
    (server : Ident) (ms ns : List Member) (row : Option Member)
    → last_of server (ms ++ ns) row ≡ last_of server ns (last_of server ms row)
last_of-append server [] ns row = refl
last_of-append server (m ∷ ms) ns row =
    last_of-append server ms ns (if m.id.server == server then some m else row)

last_of_given :
    (server : Ident) (ms : List Member) (o : Member)
    → last_of server ms none ≡ some o
    → (row : Option Member) → last_of server ms row ≡ some o
last_of_given server [] o h row = cc
last_of_given server (m ∷ ms) o h row = elim (Bool-cases (m.id.server == server)) [
  | inl same ↦ rw same (rw same at h)
  | inr other ↦ rw other (last_of_given server ms o (rw other at h) row)
]

-- `all` is what the fetches for the servers of a voice map give, one after another; each succeeds.
pub data Fetches (fetch_members : Ident → List Ident → Option (List Member))
    : HashMap (List Ident) → (all : List Member) → Type 0 where
  no_more : Fetches fetch_members [] []
  fetches :
      {server : Ident} {user_ids : List Ident} {voice : HashMap (List Ident)}
      {voice_members all : List Member}
      → fetch_members server user_ids ≡ some voice_members
      → Fetches fetch_members voice all
      → Fetches fetch_members ((server, user_ids) ∷ voice) (voice_members ++ all)

append_assoc : (a b c : List Member) → (a ++ b) ++ c ≡ a ++ (b ++ c)
append_assoc [] b c = refl
append_assoc (m ∷ a) b c = ap (λ l. m ∷ l) (append_assoc a b c)

append_nil : (a : List Member) → a ++ [] ≡ a
append_nil [] = refl
append_nil (m ∷ a) = ap (λ l. m ∷ l) (append_nil a)

extend_by_voice-append :
    {fetch_members : Ident → List Ident → Option (List Member)} {voice : HashMap (List Ident)}
    {all : List Member}
    → Fetches fetch_members voice all
    → (members : List Member) → extend_by_voice fetch_members voice members ≡ some (members ++ all)
unfolding extend_by_voice
extend_by_voice-append no_more members = ap some (sym (append_nil members))
extend_by_voice-append (fetches {voice_members = now} {all = later} e rest) members =
    rw (extend_by_voice, e)
      (extend_by_voice-append rest (members ++ now) ∙ ap some (append_assoc members now later))

-- If the fetches for all the servers with users in voice channels succeed, and `o` is the last of
-- the fetched members of all of them that is a member of a server, then the connection caches `o`
-- for that server, whatever the user's own memberships are.
pub voice_displaces :
    (fetch_members : Ident → List Ident → Option (List Member)) (voice : HashMap (List Ident))
    (memberships all : List Member) (server : Ident) (o : Member)
    → Fetches fetch_members voice all
    → last_of server all none ≡ some o
    → (index : HashMap Member) × (ready_members fetch_members voice memberships ≡ some index)
      × (get server index ≡ some o)
unfolding ready_members
voice_displaces fetch_members voice memberships all server o found last = (
  collect_members (memberships ++ all) [],
  rw (ready_members, extend_by_voice-append found memberships) refl,
  get-collect_members server (memberships ++ all) []
      ∙ (last_of-append server memberships all (get server [])
          ∙ last_of_given server all o last (last_of server memberships (get server []))),
)
