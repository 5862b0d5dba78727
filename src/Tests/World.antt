-- ===== src/Tests/World.antt =====
-- Instances of the parameters. A stream has one entry for a number and for a hash, a hash of bytes
-- is a weighted sum of them, and a signature is the message and the key.
use libe2c_cpp.Prelude.{
  ℕ, zero, suc, ◌+◌, ◌*◌, ◌≡◌, refl, ap, List, [], ◌∷◌, ◌++◌, Option, none, some, Bool, true, false,
  length, take, drop, leb, ◌==◌, if◌then◌else◌, ==-refl, length-append, length-take_le, arith,
}
use libe2c_cpp.Wire.{Salticidae, IsStream}
use libe2c_cpp.Crypto.{Secp256k1, IsSecp256k1}

abbrev pub get_one : List ℕ → Option (ℕ × List ℕ)
get_one [] = none
get_one (x ∷ s) = some (x, s)

abbrev pub get_data : ℕ → List ℕ → Option (List ℕ × List ℕ)
get_data n s = if leb n (length s) then some (take n s, drop n s) else none

abbrev pub digest : List ℕ → ℕ
digest [] = 7
digest (x ∷ s) = x + 3 * digest s

abbrev pub zeros : ℕ → List ℕ
zeros zero = []
zeros (suc n) = 0 ∷ zeros n

abbrev pub put_bits : List Bool → List ℕ
put_bits [] = 2 ∷ []
put_bits (b ∷ bs) = (if b then 1 else 0) ∷ put_bits bs

abbrev pub get_bits : List ℕ → Option (List Bool × List ℕ)
get_bits [] = none
get_bits (x ∷ s) =
    let rest = get_bits s in
    if x == 2
    then some ([], s)
    else elim rest [ none ↦ none | some (bs, r) ↦ some ((x == 1) ∷ bs, r) ]

abbrev pub stream : Salticidae
stream = record {
  put_u32 = λ n. n ∷ [];
  put_u16 = λ n. n ∷ [];
  put_u8 = λ n. n ∷ [];
  put_hash = λ h. h ∷ [];
  put_data = λ bs. bs;
  get_u32 = get_one;
  get_u16 = get_one;
  get_u8 = get_one;
  get_hash = get_one;
  get_data = get_data;
  htole = λ n. n;
  letoh = λ n. n;
  digest = digest;
  digest_zero = 5;
  put_bits = put_bits;
  get_bits = get_bits;
  to_bytes = λ h. h ∷ zeros 31;
}

take-length-append : (bs rest : List ℕ) → take (length bs) (bs ++ rest) ≡ bs
take-length-append [] rest = refl
take-length-append (b ∷ bs) rest = ap (λ x. b ∷ x) (take-length-append bs rest)

drop-length-append : (bs rest : List ℕ) → drop (length bs) (bs ++ rest) ≡ rest
drop-length-append [] rest = refl
drop-length-append (b ∷ bs) rest = drop-length-append bs rest

get_data-raw : (bs rest : List ℕ) → get_data (length bs) (bs ++ rest) ≡ some (bs, rest)
get_data-raw bs rest =
    let long : leb (length bs) (length (bs ++ rest)) ≡ true =
      ground (arith, length-append bs rest) in
    rw (long, take-length-append bs rest, drop-length-append bs rest) refl

get_bits-put_bits :
    (bs : List Bool) (rest : List ℕ) → get_bits (put_bits bs ++ rest) ≡ some (bs, rest)
get_bits-put_bits [] rest = refl
get_bits-put_bits (true ∷ bs) rest = rw (get_bits-put_bits bs rest) refl
get_bits-put_bits (false ∷ bs) rest = rw (get_bits-put_bits bs rest) refl

pub stream-IsStream : IsStream stream
stream-IsStream = record {
  u32 = λ n rest h. refl;
  u16 = λ n rest h. refl;
  u8 = λ n rest h. refl;
  hash = λ h rest v. refl;
  raw = get_data-raw;
  raw_empty = refl;
  bits = get_bits-put_bits;
  endian = λ n h. refl;
  endian_lt = λ n h. h;
}

-- A key is any list; signing takes 32 entries of the message and of the key.
abbrev pub sign_with : (msg key : List ℕ) → Option (List ℕ)
sign_with msg key = some (take 32 (msg ++ zeros 32) ++ take 32 (key ++ zeros 32))

abbrev pub same : List ℕ → List ℕ → Bool
same [] [] = true
same [] (y ∷ ys) = false
same (x ∷ xs) [] = false
same (x ∷ xs) (y ∷ ys) = if x == y then same xs ys else false

same_refl : (xs : List ℕ) → same xs xs ≡ true
same_refl [] = refl
same_refl (x ∷ xs) = rw (==-refl x) (same_refl xs)

-- The public key is the private one.
abbrev pub curve : Secp256k1
curve = record {
  ecdsa_sign = sign_with;
  ecdsa_verify = λ sig msg key. same sig (take 32 (msg ++ zeros 32) ++ take 32 (key ++ zeros 32));
  serialize_compact = λ sig. sig;
  parse_compact = λ bs. some bs;
  ec_pubkey_create = λ key. some (take 33 (key ++ zeros 33));
  ec_pubkey_serialize = λ key. key;
  ec_pubkey_parse = λ bs. some bs;
}

signed_back : (x sig : List ℕ) → Path (Option (List ℕ)) (some x) (some sig) → same sig x ≡ true
signed_back x sig e = let eq : x ≡ sig = cc in rw eq (same_refl sig)

length-zeros : (n : ℕ) → length (zeros n) ≡ n
length-zeros zero = refl
length-zeros (suc n) = ap suc (length-zeros n)

key_33 :
    (key pub_key : List ℕ)
    → Path (Option (List ℕ)) (some (take 33 (key ++ zeros 33))) (some pub_key)
    → length pub_key ≡ 33
key_33 key pub_key e =
    let eq : take 33 (key ++ zeros 33) ≡ pub_key = cc in
    rw (← eq) (
      length-take_le 33 (key ++ zeros 33)
        (omega (arith, length-append key (zeros 33), length-zeros 33)))

pub curve-IsSecp256k1 : IsSecp256k1 curve (λ key. key)
curve-IsSecp256k1 = record {
  compact_length = λ sig n. n;
  compact = λ sig n. refl;
  signed =
      λ msg key sig e. signed_back (take 32 (msg ++ zeros 32) ++ take 32 (key ++ zeros 32)) sig e;
  key_length = key_33;
  key_parsed = λ key pub_key e. refl;
}
