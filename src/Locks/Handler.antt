-- ===== src/Locks/Handler.antt =====
-- server/handlers/lock_handler.cc and server/dto/lock_response.h: one request to the lock service. The
-- userver framework gives the method, the path, the body, the header and the principal of a request;
-- `now` and `later` are the clock readings of the one or two calls of the service.
use cpp_wiki.Prelude.{
  ℕ, ◌≡◌, ◌≢◌, ◌↔◌, ◌⊎◌, refl, sym, ◌∙◌, String, Bool, true, false, Option, none, some, ◌==◌,
  is_empty, if◌then◌else◌, Bool-cases, inl, inr,
}
use cpp_wiki.Locks.{LockService, acquire, heartbeat, release, force_release, get_owner}
use cpp_wiki.Locks.Expiry.{replies_by_owner}

pub data HttpMethod : Type 0 where
  post put delete get other : HttpMethod

-- The fields of JwtPrincipal that are read.
pub record JwtPrincipal : Type 0 where
  pub subject : String
  pub preferred_username : String

pub record LockRequest : Type 0 where
  pub document_id : String
  -- The owner in the body, if the body is a LockRequestDto that has one.
  pub body_owner : Option String
  pub header_owner : String
  pub principal : Option JwtPrincipal
  pub force : String

pub record LockActionResult : Type 0 where
  pub acquired : Bool
  pub released : Bool
  -- The source's field `heartbeat`.
  pub heartbeat_ok : Bool
  pub force_released : Bool
  pub owner : Option String
  pub document_id : Option String

principal_owner : Option JwtPrincipal → String
principal_owner none = "anonymous"
principal_owner (some principal) =
    if is_empty principal.preferred_username
    then (if is_empty principal.subject then "anonymous" else principal.subject)
    else principal.preferred_username

pub extract_owner : LockRequest → String
unfolding principal_owner
extract_owner request = elim request.body_owner [
  | some owner ↦ owner
  | none ↦
      if is_empty request.header_owner
      then principal_owner request.principal
      else request.header_owner
]

blank_result : LockRequest → LockActionResult
blank_result request = record {
  acquired = false;
  released = false;
  heartbeat_ok = false;
  force_released = false;
  owner = none;
  document_id = some request.document_id;
}

-- After a failed attempt the owner is asked for with a call of its own.
post_reply : LockRequest → ℕ → LockService × Bool → LockService × LockActionResult
unfolding blank_result extract_owner
post_reply request later (s, true) =
    (s, record (blank_result request) { acquired = true; owner = some (extract_owner request) })
post_reply request later (s, false) =
    let (s', owner) = get_owner s request.document_id later in
    (s', record (blank_result request) { owner = owner })

put_reply : LockRequest → ℕ → LockService × Bool → LockService × LockActionResult
unfolding blank_result
put_reply request later (s, ok) =
    let (s', owner) = get_owner s request.document_id later in
    (s', record (blank_result request) { heartbeat_ok = ok; owner = owner })

delete_reply : Bool → LockRequest → LockService × Bool → LockService × LockActionResult
unfolding blank_result
delete_reply forced request (s, ok) = (
  s,
  if forced
      then record (blank_result request) { force_released = ok }
      else record (blank_result request) { released = ok },
)

-- `none` is the error "method_not_allowed".
unfoldable pub handle_request :
    HttpMethod → LockRequest → ℕ → ℕ → LockService → LockService × Option LockActionResult
unfolding post_reply put_reply delete_reply extract_owner
handle_request post request now later s =
    let (s', r) =
      post_reply request later (acquire s request.document_id (extract_owner request) now) in
    (s', some r)
handle_request put request now later s =
    let (s', r) =
      put_reply request later (heartbeat s request.document_id (extract_owner request) now) in
    (s', some r)
handle_request delete request now later s =
    let forced = request.force == "true" in
    let (s', r) = delete_reply forced request (
      if forced
      then force_release s request.document_id now
      else release s request.document_id (extract_owner request) now) in
    (s', some r)
handle_request get request now later s =
    let (s', owner) = get_owner s request.document_id now in
    (s', some (record (blank_result request) { owner = owner }))
handle_request other request now later s = (s, none)

-- What a reply says, in terms of the owner reported before the call.
abbrev pub Replies : HttpMethod → LockRequest → Option String → Option LockActionResult → Type 0
Replies m request seen none = m ≡ other
Replies m request seen (some r) =
    (m ≢ other)
    × ((r.acquired ≡ true) ↔ ((m ≡ post) × ((seen ≡ none) ⊎ (seen ≡ some (extract_owner request)))))
    × ((r.heartbeat_ok ≡ true) ↔ ((m ≡ put) × (seen ≡ some (extract_owner request))))
    × ((r.released ≡ true) ↔ (
        (m ≡ delete) × ((request.force == "true") ≡ false) × (seen ≡ some (extract_owner request))))
    × ((r.force_released ≡ true)
        ↔ ((m ≡ delete) × ((request.force == "true") ≡ true) × (seen ≢ none)))

post_flags :
    (request : LockRequest) (later : ℕ) (result : LockService × Bool)
    → let r = (post_reply request later result).1 in
      (r.acquired ≡ result.1)
      × (r.released ≡ false)
      × (r.heartbeat_ok ≡ false)
      × (r.force_released ≡ false)
unfolding post_reply blank_result
post_flags request later (s, true) = (refl, refl, refl, refl)
post_flags request later (s, false) = (refl, refl, refl, refl)

-- A flag that is not set, for a method that is another one.
unset : {b : Bool} {m n : HttpMethod} {P : Type 0} → b ≡ false → m ≢ n → (b ≡ true) ↔ ((m ≡ n) × P)
unset e ne = (λ h. cc (e, h), λ h. absurd (ne h.0))

-- A flag of a reply is set exactly when the request has that flag's method and the owner that was
-- reported before allows it: acquire when no owner or the caller was, heartbeat and release when the
-- caller was, a forced release when some owner was. There is no reply, but the error that the method
-- is not allowed, exactly for the other methods.
pub handle_request-Replies :
    (m : HttpMethod) (request : LockRequest) (now later : ℕ) (s : LockService)
    → Replies m request
        (get_owner s request.document_id now).1
        (handle_request m request now later s).1
unfolding handle_request blank_result
handle_request-Replies post request now later s =
    let (by_acquire, _, _, _, _) =
      replies_by_owner s request.document_id (extract_owner request) now in
    let (same, rel, heart, forced) =
      post_flags request later (acquire s request.document_id (extract_owner request) now) in
    (
      λ e. cc,
      (λ h. (refl, by_acquire.0 (sym same ∙ h)), λ h. same ∙ by_acquire.1 h.1),
      unset heart (λ e. cc),
      (λ h. cc (rel, h), λ h. cc (h.0)),
      (λ h. cc (forced, h), λ h. cc (h.0)),
    )
handle_request-Replies put request now later s =
    let (_, by_heartbeat, _, _, _) =
      replies_by_owner s request.document_id (extract_owner request) now in
    (
      λ e. cc,
      unset refl (λ e. cc),
      (λ h. (refl, by_heartbeat.0 h), λ h. by_heartbeat.1 h.1),
      (λ h. cc, λ h. cc (h.0)),
      (λ h. cc, λ h. cc (h.0)),
    )
handle_request-Replies delete request now later s =
    let (_, _, by_release, by_force, _) =
      replies_by_owner s request.document_id (extract_owner request) now in
    elim (Bool-cases (request.force == "true")) [
      | inl e ↦ rw e (
        λ e. cc,
        unset refl (λ e. cc),
        unset refl (λ e. cc),
        (λ h. cc, λ h. cc (h.1)),
        (λ h. (refl, refl, by_force.0 h), λ h. by_force.1 h.2),
      )
      | inr e ↦ rw e (
        λ e. cc,
        unset refl (λ e. cc),
        unset refl (λ e. cc),
        (λ h. (refl, refl, by_release.0 h), λ h. by_release.1 h.2),
        (λ h. cc, λ h. cc (h.1)),
      )
    ]
handle_request-Replies get request now later s = (
  λ e. cc,
  unset refl (λ e. cc),
  unset refl (λ e. cc),
  (λ h. cc, λ h. cc (h.0)),
  (λ h. cc, λ h. cc (h.0)),
)
handle_request-Replies other request now later s = refl
