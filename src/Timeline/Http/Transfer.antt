-- ===== src/Timeline/Http/Transfer.antt =====
-- HTTPTransport: ConfigureBackend and TransferData. The serializer and the HTTP client are parameters.
use gobol.Base.{
  Bool-cases, ap, ◌∙◌, inl, inr, ◌↔◌, ◌≡◌, refl, Bool, true, false, List, [], ◌∷◌, map, Option,
  none, some, if◌then◌else◌, arith,
}
use gobol.Base.Text.{GoString}
use gobol.Base.Int.{int_lt-IsStrictOrder, ℤ, int_lt}
use gobol.Timeline.Config.{HttpConfig}
use gobol.Base.Outcome.{bind_ok}
use gobol.Timeline.Point.{
  JsonItem, Item, json, json_ptr, tsdb, tsdb_ptr, foreign, no_backend, casting_item, request_error,
  client_error, unexpected_status, backend_error, Outcome, ok, err, ◌>>=◌,
}

-- Backend
pub record Backend : Type 0 where
  pub host : GoString
  pub port : ℤ

-- The parts of the text that is made for `serviceURL`.
pub record ServiceUrl : Type 0 where
  pub backend : Backend
  pub endpoint : GoString

-- (t *HTTPTransport) ConfigureBackend
unfoldable pub configure_backend : HttpConfig → Option Backend → Outcome ServiceUrl
configure_backend c none = err no_backend
configure_backend c (some b) = ok (record { backend = b; endpoint = c.service_endpoint })

-- The answer to a request: no request could be made, no response came, or a response with its status
-- and whether its body can be read.
pub data Reply : Type 0 where
  no_request no_response : Reply
  response : ℤ → Bool → Reply

pub record Environment : Type 0 where
  pub serialize_array : List JsonItem → Outcome GoString
  pub post : GoString → ServiceUrl → GoString → Reply

-- The loop of casts.
unfoldable pub cast_items : List Item → Outcome (List JsonItem)
cast_items [] = ok []
cast_items (json i ∷ items) = do rest ← cast_items items; ok (i ∷ rest)
cast_items (_ ∷ items) = err casting_item

abbrev int_eq : ℤ → ℤ → Bool
int_eq a b = if int_lt a b then false else if int_lt b a then false else true

on_reply : ℤ → Reply → Outcome (Unit {0})
on_reply expected no_request = err request_error
on_reply expected no_response = err client_error
on_reply expected (response status readable) =
    if int_eq status expected
    then ok tt
    else if readable
    then err unexpected_status
    else err backend_error

-- (t *HTTPTransport) TransferData
unfoldable pub transfer_data :
    Environment → HttpConfig → ServiceUrl → List Item → Outcome (Unit {0})
unfolding cast_items on_reply
transfer_data env c url items = do
  points ← cast_items items
  payload ← env.serialize_array points
  on_reply c.expected_response_status (env.post c.method url payload)

cast_items-map : (points : List JsonItem) → cast_items (map json points) ≡ ok points
unfolding cast_items
cast_items-map [] = refl
cast_items-map (p ∷ points) = rw (cast_items-map points)

int_eq_refl : (n : ℤ) → int_eq n n ≡ true
unfolding int_lt
int_eq_refl n = ground arith

int_eq-ok : (a b : ℤ) → int_eq a b ≡ true → a ≡ b
int_eq-ok a b h = elim (Bool-cases (int_lt a b)) [
  | inl e ↦ absurd (cc (rw e at h))
  | inr e ↦ elim (Bool-cases (int_lt b a)) [
    | inl f ↦ absurd (cc (rw (e, f) at h))
    | inr f ↦ int_lt-IsStrictOrder.total a b e f
  ]
]

-- What the items are when all casts succeed.
cast_items-ok :
    (items : List Item) (points : List JsonItem)
    → cast_items items ≡ ok points
    → items ≡ map json points
unfolding cast_items
cast_items-ok [] points h = let e : [] ≡ points = cc (h) in ap (λ l. map json l) e
cast_items-ok (json i ∷ items) points h =
    let (rest, e, k) = bind_ok (cast_items items) (λ l. ok (i ∷ l)) points h in
    let same : i ∷ rest ≡ points = cc (k) in
    ap (λ l. json i ∷ l) (cast_items-ok items rest e) ∙ ap (λ l. map json l) same
cast_items-ok (json_ptr i ∷ items) points h = cc
cast_items-ok (tsdb i ∷ items) points h = cc
cast_items-ok (tsdb_ptr i ∷ items) points h = cc
cast_items-ok (foreign i ∷ items) points h = cc

-- The conditions of a transfer: the items are of the transport's own type, in their order, the serializer
-- makes a text of them, and the response to that text has the expected status.
pub record IsPosted (env : Environment) (c : HttpConfig) (url : ServiceUrl) (items : List Item)
    : Type 0 where
  pub points : List JsonItem
  pub payload : GoString
  pub readable : Bool
  pub own_type : items ≡ map json points
  pub serialized : env.serialize_array points ≡ ok payload
  pub answered : env.post c.method url payload ≡ response c.expected_response_status readable

on_reply-ok :
    (expected : ℤ) (r : Reply)
    → on_reply expected r ≡ ok tt
    → (readable : Bool) × (r ≡ response expected readable)
unfolding on_reply
on_reply-ok expected no_request h = cc
on_reply-ok expected no_response h = cc
on_reply-ok expected (response status readable) h = elim (Bool-cases (int_eq status expected)) [
  | inl e ↦ (readable, ap (λ s. response s readable) (int_eq-ok status expected e))
  | inr e ↦ elim (Bool-cases readable) [
    | inl f ↦ absurd (cc (rw (e, f) at h))
    | inr f ↦ absurd (cc (rw (e, f) at h))
  ]
]

-- A transfer succeeds exactly when all items are of the transport's own type, the serializer makes a text
-- of them in their order, and the response to that text has the expected status.
pub transfer_data-ok :
    (env : Environment) (c : HttpConfig) (url : ServiceUrl) (items : List Item)
    → (transfer_data env c url items ≡ ok tt) ↔ IsPosted env c url items
unfolding transfer_data
transfer_data-ok env c url items = (
  λ h.
      let (points, e, k) = bind_ok (cast_items items) _ tt h in
      let (payload, f, l) = bind_ok (env.serialize_array points) _ tt k in
      let (readable, g) =
        on_reply-ok c.expected_response_status (env.post c.method url payload) l in
      record {
        points = points;
        payload = payload;
        readable = readable;
        own_type = cast_items-ok items points e;
        serialized = f;
        answered = g;
      },
  λ h. rw (
    h.own_type,
    cast_items-map h.points,
    h.serialized,
    h.answered,
    int_eq_refl c.expected_response_status,
  ),
)
