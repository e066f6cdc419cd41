-- ===== src/Auth/Sessions.antt =====
-- crates/walastack-auth/src/lib.rs: `SessionStore` and its in-memory provider.
use walastack_rs.Base.{
  ℕ, String, ◌≡◌, refl, ap, ◌∙◌, Bool, true, false, Option, none, some, List, [], ◌∷◌, arith,
  if◌then◌else◌, ◌==◌, nat_keys, string_keys, unwrap_or, lookup, insert, remove, lookup-insert,
  lookup-remove, lookup-nil,
}

pub record Session : Type 0 where
  pub id : String
  pub user_id : String
  pub «data» : List (String × String)
  pub expires_at : ℕ

-- The map under its lock; a poisoned lock gives no guard.
pub record SessionStore : Type 0 where
  pub sessions : List (String × Session)
  pub poisoned : Bool

unfoldable pub new_sessions : SessionStore
new_sessions = record { sessions = []; poisoned = false }

unfoldable pub get : (id : String) → SessionStore → Option Session
get id store = if store.poisoned then none else lookup id store.sessions

unfoldable pub put : Session → SessionStore → SessionStore
put session store =
    if store.poisoned
    then store
    else record store { sessions = insert session.id session store.sessions }

unfoldable pub remove_session : (id : String) → SessionStore → SessionStore
remove_session id store =
    if store.poisoned then store else record store { sessions = remove id store.sessions }

-- The calls that change a store.
pub data Change : Type 0 where
  puts : Session → Change
  removes : (id : String) → Change

abbrev pub change : Change → SessionStore → SessionStore
change (puts session) store = put session store
change (removes id) store = remove_session id store

abbrev pub change_all : List Change → SessionStore → SessionStore
change_all [] store = store
change_all (c ∷ changes) store = change_all changes (change c store)

-- What a change says of an identifier: nothing, that there is a session, or that there is none.
abbrev pub says : (id : String) → Change → Option (Option Session)
says id (puts session) = if session.id == id then some (some session) else none
says id (removes other) = if other == id then some none else none

-- The last word of a sequence of changes on an identifier.
abbrev pub last_word : (id : String) → List Change → Option Session → Option Session
last_word id [] before = before
last_word id (c ∷ changes) before = last_word id changes (unwrap_or (says id c) before)

get-change :
    (id : String) (c : Change) (store : SessionStore)
    → store.poisoned ≡ false
    → (get id (change c store) ≡ unwrap_or (says id c) (get id store))
      × ((change c store).poisoned ≡ false)
unfolding get put remove_session
get-change id (puts session) store up =
    ground (arith, lookup-insert session.id id session store.sessions)
get-change id (removes other) store up = ground (arith, lookup-remove other id store.sessions)

get-change_all :
    (id : String) (changes : List Change) (store : SessionStore)
    → store.poisoned ≡ false
    → get id (change_all changes store) ≡ last_word id changes (get id store)
get-change_all id [] store up = refl
get-change_all id (c ∷ changes) store up =
    let step = get-change id c store up in
    get-change_all id changes (change c store) step.1 ∙ ap (last_word id changes) step.0

-- No call changes a store whose lock is poisoned.
change_all_poisoned :
    (changes : List Change) (store : SessionStore)
    → store.poisoned ≡ true
    → change_all changes store ≡ store
unfolding put remove_session
change_all_poisoned [] store down = refl
change_all_poisoned (puts session ∷ changes) store down =
    ap (change_all changes) (ground arith) ∙ change_all_poisoned changes store down
change_all_poisoned (removes id ∷ changes) store down =
    ap (change_all changes) (ground arith) ∙ change_all_poisoned changes store down

-- After any calls on a new store, the session of an identifier is the one that the last call on that
-- identifier stored, and there is none if that call removed it or if there was no such call.
pub change_all-last_word :
    (id : String) (changes : List Change)
    → get id (change_all changes new_sessions) ≡ last_word id changes none
change_all-last_word id changes =
    get-change_all id changes new_sessions (unfold new_sessions in refl)
    ∙ ap (last_word id changes) (unfold get new_sessions in lookup-nil id)
