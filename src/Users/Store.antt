-- ===== src/Users/Store.antt =====
-- How the operations of the store of users fit together.
use company_backend.Prelude.{Ident, ◌≡◌, refl, ◌+◌, none, arith}
use company_backend.Prelude.HashMap.{
  HashMap, get, insert, remove, get-insert, get-remove, length-insert,
}
use company_backend.Models.{User}
use company_backend.Result.{Error, ok, err}
use company_backend.Users.Reference.{insert_user, fetch_user, delete_user, count_users}

inserted :
    (user : User) (users : HashMap User)
    → get user.id users ≡ none
    → insert_user user users ≡ (insert user.id user users, ok tt)
unfolding insert_user
inserted user users h = ground arith

deleted :
    (user : User) (users : HashMap User)
    → delete_user user.id (insert user.id user users)
      ≡ (remove user.id (insert user.id user users), ok tt)
unfolding delete_user
deleted user users = ground (arith, get-insert user.id user.id user users)

refetched :
    (user : User) (users : HashMap User) (id : Ident)
    → get user.id users ≡ none
    → fetch_user id (remove user.id (insert user.id user users)) ≡ fetch_user id users
unfolding fetch_user
refetched user users id h =
    ground
      (arith, get-remove user.id id (insert user.id user users), get-insert user.id id user users)

-- A user whose id is new is inserted: it can be fetched, counts as one more, and cannot be
-- inserted a second time. Deleting it succeeds and leaves every fetch as it was before.
insert_user_effect :
    (user : User) (users : HashMap User)
    → get user.id users ≡ none
    → let (users', r) = insert_user user users in
      let (users'', r') = delete_user user.id users' in
      (r ≡ ok tt)
      × (fetch_user user.id users' ≡ ok user)
      × (count_users users' ≡ count_users users + 1)
      × (insert_user user users' ≡ (users', err Error.database_error))
      × (r' ≡ ok tt)
      × ((id : Ident) → fetch_user id users'' ≡ fetch_user id users)
unfolding insert_user fetch_user delete_user count_users
insert_user_effect user users h =
    let new = get-insert user.id user.id user users in
    rw (inserted user users h) (
      rw (deleted user users) (
        refl,
        ground (arith, new),
        ground (arith, length-insert user.id user users),
        ground (arith, new),
        refl,
        (λ id. refetched user users id h),
      ))
