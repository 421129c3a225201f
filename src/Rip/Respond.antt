-- ===== src/Rip/Respond.antt =====
-- rip/rip.go: the errors of the handlers, and the responses that they send. encoding/json and the decoding
-- of a compressed body are parameters, and logging has no part in the result.
pub mod Sent
use gobol.Base.{ℕ, Bool, true, false, ◌&&◌, ltb, Option, none, some, List, [], ◌∷◌, if◌then◌else◌}
use gobol.Base.Text.{GoString, Bytes, codes, str_eq}
use gobol.NetHttp.Header.{Headers, get, add}
use gobol.NetHttp.Handler.{Request, Handler, done, with_header, set_header, write, write_header}

-- customError; the embedded error may be nil, and Error then panics.
pub record CustomError : Type 0 where
  pub error : Option GoString
  pub msg : GoString
  pub pkg : GoString
  pub function : GoString
  pub http_code : ℕ

-- errorJSON
pub record ErrorJson : Type 0 where
  pub error : Option GoString
  pub message : GoString

-- errBasic
unfoldable pub err_basic : GoString → GoString → GoString → ℕ → Option GoString → Option CustomError
err_basic pkg function message code none = none
err_basic pkg function message code (some e) =
    some
      (record { error = some e; msg = message; pkg = pkg; function = function; http_code = code })

-- errUnmarshal
unfoldable pub err_unmarshal : GoString → GoString → Option GoString → Option CustomError
unfolding err_basic
err_unmarshal pkg function e = err_basic pkg function (codes "Wrong JSON format") 400 e

-- The request's body as a decoder reads it.
pub data Source : Type 0 where
  plain : Bytes → Source
  gzipped : Bytes → Source

module _ {T : Type 0} (new_reader : Bytes → Option GoString)
    (decode : Source → T → T × Option GoString) (validate : T → Option CustomError) where
  -- The two ends of FromJSON behind Decode.
  decoded : T × Option GoString → T × Option CustomError
  decoded (t, none) = (t, validate t)
  decoded (t, some e) = (t, err_unmarshal (codes "rip") (codes "FromJSON") (some e))

  unzipped : Bytes → Option GoString → T → T × Option CustomError
  unfolding decoded
  unzipped body none t = decoded (decode (gzipped body) t)
  unzipped body (some e) t = (t, err_unmarshal (codes "rip") (codes "FromJSON") (some e))

  -- FromJSON, with the value that it fills
  unfoldable pub from_json : Request → T → T × Option CustomError
  unfolding unzipped decoded
  from_json r t =
      if str_eq (get r.header (codes "Content-Encoding")) (codes "gzip")
      then unzipped r.body (new_reader r.body) t
      else decoded (decode (plain r.body) t)

-- The write of an error's text, if the write before it failed.
retry : Option GoString → Handler
retry none = done
retry (some e) = write e (λ f. done)

-- The result of json.Marshal
pub data Marshalled : Type 0 where
  text : Bytes → Marshalled
  failed : GoString → Marshalled

-- SuccessJSON
unfoldable pub success_json : ℕ → Marshalled → Handler
success_json code (text b) = with_header (λ h.
    set_header (add (codes "Content-Type") (codes "application/json") h)
      (write_header code (write b (λ f. done))))
success_json code (failed e) = write_header 500 (write e (λ f. done))

write_payload : Option Bytes → Handler
unfolding retry
write_payload none = done
write_payload (some b) = write b retry

-- Success
unfoldable pub success : ℕ → Option Bytes → Handler
unfolding write_payload
success code payload = write_header code (write_payload payload)

-- What Fail does when the encoder reports an error of its write.
on_encoded : Option GoString → Handler
on_encoded none = done
on_encoded (some e) = write_header 500 (write e (λ f. done))

module _ (encode : ErrorJson → Bytes) where
  write_error : ℕ → ErrorJson → Handler
  unfolding on_encoded
  write_error code ej = write_header code (write (encode ej) on_encoded)

  -- The answer to an error without a text, and to any other.
  answer : ℕ → Bool → ErrorJson → Handler
  unfolding write_error
  answer code silent ej =
      if ltb code 500 && silent then write_header code done else write_error code ej

  fail_with : CustomError → Option GoString → Handler
  unfolding answer
  fail_with e none = answer e.http_code (str_eq e.msg []) (record { error = none; message = e.msg })
  fail_with e (some m) =
      answer e.http_code (str_eq m [] && str_eq e.msg [])
        (record { error = some m; message = e.msg })

  -- Fail; without an embedded error it recovers from the panic of Error.
  unfoldable pub fail : CustomError → Handler
  unfolding fail_with
  fail e = fail_with e e.error
