-- ===== src/Locks/Tests.antt =====
-- Runs of the lock service, and its theorems at concrete inputs.
use cpp_wiki.Prelude.{
  ℕ, ◌≡◌, ◌≢◌, ◌↔◌, ◌⊎◌, String, true, false, none, some, List, [], ◌∷◌, arith, eq_iff, inl, inr,
  refl,
}
use cpp_wiki.Locks.{
  LockService, init, acquire, heartbeat, release, force_release, is_locked, get_owner, Call,
  acquires, heartbeats, releases, asks_owner, step, run,
}
use cpp_wiki.Locks.Exclusion.{acquire_excludes}
use cpp_wiki.Locks.Handler.{LockRequest, post, handle_request, Replies, handle_request-Replies}
use cpp_wiki.Locks.Expiry.{
  replies_by_owner, release_frees, get_owner-step, expired_lock_binds_nobody,
}

service : LockService
unfolding init
service = init 30

-- "ada" holds the page "p" from 100 on.
held : LockService
unfolding service acquire
held = (acquire service "p" "ada" 100).0

abbrev history : List (ℕ × Call)
history = (110, acquires "p" "bob") ∷ (120, heartbeats "p" "ada") ∷ (115, asks_owner "q") ∷ []

differ : ◌≢◌ {A = String} "ada" "bob"
differ = ground (arith, eq_iff "ada" "bob")

acquire_runs : ((acquire held "p" "bob" 129).1 ≡ false) × ((acquire held "p" "bob" 130).1 ≡ true)
unfolding held
acquire_runs = (refl, refl)

acquire_excludes_example :
    let t = run (acquire service "p" "ada" 100).0 history in
    ((acquire t "p" "bob" 129).1 ≡ false)
    × ((heartbeat t "p" "bob" 129).1 ≡ false)
    × ((release t "p" "bob" 129).1 ≡ false)
    × ((get_owner t "p" 129).1 ≡ some "ada")
unfolding service acquire
acquire_excludes_example =
    acquire_excludes service "p" "ada" "bob" 100 129 history refl
      (
        (inr (omega arith), inl (omega arith)),
        ((inr (omega arith), inl (omega arith)), (inr (omega arith), tt)),
      )
      (inr (omega arith)) differ

replies_by_owner_example :
    let seen = (get_owner held "p" 110).1 in
    (((acquire held "p" "bob" 110).1 ≡ true) ↔ ((seen ≡ none) ⊎ (seen ≡ some "bob")))
    × (((heartbeat held "p" "bob" 110).1 ≡ true) ↔ (seen ≡ some "bob"))
    × (((release held "p" "bob" 110).1 ≡ true) ↔ (seen ≡ some "bob"))
    × (((force_release held "p" 110).1 ≡ true) ↔ (seen ≢ none))
    × (((is_locked held "p" 110).1 ≡ true) ↔ (seen ≢ none))
replies_by_owner_example = replies_by_owner held "p" "bob" 110

release_frees_example :
    let t = (release held "p" "ada" 110).0 in
    let u = (force_release held "p" 110).0 in
    ((release held "p" "ada" 110).1 ≡ true
      → ((get_owner t "p" 111).1 ≡ none) × ((acquire t "p" "bob" 111).1 ≡ true))
    × ((get_owner u "p" 111).1 ≡ none)
    × ((acquire u "p" "bob" 111).1 ≡ true)
release_frees_example = release_frees held "p" "ada" "bob" 110 111

get_owner-step_example :
    (get_owner (step held (200, releases "q" "ada")) "p" 210).1 ≡ (get_owner held "p" 210).1
get_owner-step_example =
    get_owner-step held "p" 200 210 (releases "q" "ada")
      (λ (e : ◌≡◌ {A = String} "q" "p"). ground (arith, eq_iff "q" "p", e)) (omega arith)

expired_lock_binds_nobody_example :
    ((heartbeat held "p" "ada" 130).1 ≡ false)
    × ((release held "p" "ada" 130).1 ≡ false)
    × ((is_locked held "p" 130).1 ≡ false)
    × ((acquire held "p" "bob" 130).1 ≡ true)
    × ((get_owner (acquire held "p" "bob" 130).0 "p" 130).1 ≡ some "bob")
unfolding held
expired_lock_binds_nobody_example =
    expired_lock_binds_nobody held "p" "bob" 130
      (record { owner = "ada"; acquired_at = 100; heartbeat_at = 100 }) refl (omega arith)
      (omega arith)

abbrev attempt : LockRequest
attempt = record {
  document_id = "p";
  body_owner = none;
  header_owner = "";
  force = "";
  principal = some (record { subject = "7"; preferred_username = "bob" });
}

handle_request_runs :
    (handle_request post attempt 110 111 held).1
    ≡ some (record {
      acquired = false;
      released = false;
      heartbeat_ok = false;
      force_released = false;
      owner = some "ada";
      document_id = some "p";
    })
unfolding handle_request held get_owner
handle_request_runs = refl

handle_request-Replies_example :
    Replies post attempt (get_owner held "p" 110).1 (handle_request post attempt 110 111 held).1
handle_request-Replies_example = handle_request-Replies post attempt 110 111 held
