-- ===== src/Result.antt =====
-- The errors that the modelled operations return, and the chain of fallible steps.
use greyd_v.Base.{ℕ, Bytes, ◌≡◌, refl, ◌⊎◌, inl, inr}

pub data Error : Type 0 where
  -- core.ErrReadOnly, and a cancelled context
  read_only cancelled : Error
  -- kv.DecodeKey ("empty key", "malformed tuple key") and kv.DecodeData
  empty_key malformed_key malformed_data : Error
  -- grey.ErrUnknownType, grey.ErrTooManyDomains
  unknown_type too_many_domains : Error
  -- ipc.SyntaxError, with the number of bytes left in place of the position; ipc.IncompleteError
  syntax_error : ℕ → Error
  missing_field : Bytes → Error
  -- ipc.ErrUnknownMessage, ipc.ErrFrameTooLarge, io.EOF
  unknown_message frame_too_large end_of_stream : Error
  -- smtp.ErrProxyUnknown, smtp.ErrProxyInvalid
  proxy_unknown proxy_invalid : Error
  -- sync.ErrTruncated
  truncated_packet : Error
  -- config.LoadFile; parse.Error: of the grammar, and "integer out of range"
  no_parser : Error
  open_failed : Bytes → Error
  config_syntax integer_out_of_range : Error
  -- settings: a variable of another type ("expected 0 or 1" and the like), with its name; ValidationError
  wrong_type : Bytes → Error
  invalid_settings : ℕ → Error
  -- cli.UnknownOptionError and MissingArgError, with the flag
  unknown_option missing_argument : ℕ → Error

-- What a Go function with an error result returns.
pub data Result {ℓ} (T : Type ℓ) : Type ℓ where
  err : (reason : Error) → Result T
  ok : (value : T) → Result T

-- The early return on an error.
infixl 5 ◌>>=◌
abbrev pub ◌>>=◌ {ℓ κ} :
    {T : Type ℓ} {S : Type κ} (first : Result T) (next : T → Result S) → Result S
err reason >>= next = err reason
ok value >>= next = next value

-- Where a chain succeeds, so does each of its parts.
pub >>=-eq-ok {ℓ κ} :
    {T : Type ℓ} {S : Type κ} (first : Result T) (next : T → Result S) {out : S}
    → (first >>= next) ≡ ok out
    → (mid : T) × (first ≡ ok mid) × (next mid ≡ ok out)
>>=-eq-ok (err reason) next h = cc
>>=-eq-ok (ok value) next h = (value, refl, h)

pub Result-cases {ℓ} :
    {A : Type ℓ} (r : Result A) → ((a : A) × (r ≡ ok a)) ⊎ ((e : Error) × (r ≡ err e))
Result-cases (ok a) = inl (a, refl)
Result-cases (err e) = inr (e, refl)
