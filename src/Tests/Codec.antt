-- ===== src/Tests/Codec.antt =====
-- A stand-in for decimal.js and JSON, which the tests run with.
use backend_assessment_chall.Prelude.{
  Bool, Option, [], ap, arith, drop, false, length, none, refl, some, take, true, ℕ, ◌++◌, ◌==◌,
  ◌∷◌, ◌≡◌, ◌≢◌,
}
use backend_assessment_chall.Prelude.Int.{negsuc, pos, ℤ}
use backend_assessment_chall.Prelude.Text.{Text}
use backend_assessment_chall.Wallet.Types.{Runtime, TransferResult}

-- Replies as texts: every field after its length.
unfoldable pub put_text : Text → Text → Text
put_text t rest = length t ∷ (t ++ rest)

unfoldable pub get_text : Text → Text × Text
get_text [] = ([], [])
get_text (n ∷ xs) = (take n xs, drop n xs)

take-length : (t rest : Text) → take (length t) (t ++ rest) ≡ t
take-length [] rest = refl
take-length (c ∷ t) rest = ap (◌∷◌ c) (take-length t rest)

drop-length : (t rest : Text) → drop (length t) (t ++ rest) ≡ rest
drop-length [] rest = refl
drop-length (c ∷ t) rest = drop-length t rest

pub get_text-put_text : (t rest : Text) → get_text (put_text t rest) ≡ (t, rest)
unfolding get_text put_text
get_text-put_text t rest = rw (take-length, drop-length)

put_option : Option Text → Text
put_option none = []
put_option (some b) = put_text b []

put_flag : Bool → ℕ
put_flag false = 0
put_flag true = 1

pub toy_stringify : TransferResult → Text
toy_stringify r =
    put_flag r.replayed
    ∷ put_text r.from_wallet_id (
        put_text r.to_wallet_id (
          put_text r.amount
            (put_text r.from_balance (put_text r.reference_id (put_option r.to_balance)))))

toy_option : Text → Option Text
toy_option [] = none
toy_option (n ∷ xs) = some (get_text (n ∷ xs)).0

toy_fields : Bool → Text → TransferResult
toy_fields replayed s =
    let a : Text × Text = get_text s in
    let b : Text × Text = get_text a.1 in
    let c : Text × Text = get_text b.1 in
    let d : Text × Text = get_text c.1 in
    let e : Text × Text = get_text d.1 in
    record {
      from_wallet_id = a.0;
      to_wallet_id = b.0;
      amount = c.0;
      from_balance = d.0;
      to_balance = toy_option e.1;
      reference_id = e.0;
      replayed = replayed;
    }

pub toy_parse : Text → TransferResult
toy_parse [] = toy_fields false []
toy_parse (flag ∷ s) = toy_fields (flag == 1) s

toy_option-put_text : (b : Text) → toy_option (put_text b []) ≡ some b
unfolding toy_option put_text get_text
toy_option-put_text b = ap (λ t. some t.0) (get_text-put_text b [])

toy_rest :
    (a b c d e x : Text) (replayed : Bool)
    → toy_fields replayed (put_text a (put_text b (put_text c (put_text d (put_text e x)))))
      ≡ record {
        from_wallet_id = a;
        to_wallet_id = b;
        amount = c;
        from_balance = d;
        to_balance = toy_option x;
        reference_id = e;
        replayed = replayed;
      }
unfolding toy_fields
toy_rest a b c d e x replayed = simp get_text-put_text

toy_option-put_option : (o : Option Text) → toy_option (put_option o) ≡ o
unfolding put_option toy_option
toy_option-put_option none = refl
toy_option-put_option (some b) = toy_option-put_text b

put_flag-back : (f : Bool) → (put_flag f == 1) ≡ f
unfolding put_flag
put_flag-back false = refl
put_flag-back true = refl

pub toy_round_trip : (r : TransferResult) → toy_parse (toy_stringify r) ≡ r
unfolding toy_parse toy_stringify
toy_round_trip r = rw (put_flag-back, toy_rest, toy_option-put_option)

pub toy_decimal : ℤ → Text
toy_decimal (pos n) = 0 ∷ n ∷ []
toy_decimal (negsuc n) = 1 ∷ n ∷ []

pub toy_stringify-nonempty : (r : TransferResult) → toy_stringify r ≢ []
unfolding toy_stringify
toy_stringify-nonempty r e = ground arith

instance unfoldable pub toy_runtime : Runtime
toy_runtime = record {
  decimal_to_string = toy_decimal;
  stringify = toy_stringify;
  parse = toy_parse;
  parse-stringify = toy_round_trip;
  stringify-nonempty = toy_stringify-nonempty;
}
