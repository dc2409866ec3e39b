-- ===== src/Wire/Reader.antt =====
-- Readers: functions that take a value from the front of a slice, never look past what they take,
-- and hand back the rest. The rounds of the program's loops are built from them.
use microdot.Base.{
  ℕ, ◌≤◌, ◌≡◌, refl, Bool, true, false, Option, none, some, ◌++◌, Bytes, length, if◌then◌else◌,
  Result, ok, err, ◌>>=◌, map_err, ok_or, bind-eq-ok, map_err-eq-ok, arith,
}
use microdot.Wire.{Error, decode_varint, take_bytes, take_delimited}
use microdot.Wire.Bounds.{decode_varint_takes, decode_varint-append}
use microdot.Wire.Slices.{
  take_bytes_takes, take_bytes-append, take_delimited_takes, take_delimited-append,
}
use microdot.Wire.Walk.{Shrinks, IsFramed}

module _ {ℓ κ} {E : Type ℓ} {A : Type κ} where
  pub record IsReader (p : Bytes → Result E (A × Bytes)) : Type (ℓ ⊔ κ) where
    pub no_longer :
        (input : Bytes) (a : A) (rest : Bytes) → p input ≡ ok (a, rest) → length rest ≤ length input
    pub framed :
        (input : Bytes) (a : A) (rest more : Bytes)
        → p input ≡ ok (a, rest)
        → p (input ++ more) ≡ ok (a, rest ++ more)

  pub pure-IsReader : (a : A) → IsReader (λ input. ok (a, input))
  pure-IsReader a = record {
    no_longer = λ input b rest e. ground arith;
    framed = λ input b rest more e. ground arith;
  }

  pub fail-IsReader : (x : E) → IsReader (λ input. err x)
  fail-IsReader x = record { no_longer = λ input b rest e. cc; framed = λ input b rest more e. cc }

  pub if_IsReader :
      (b : Bool) {p q : Bytes → Result E (A × Bytes)}
      → IsReader p
      → IsReader q
      → IsReader (λ input. if b then p input else q input)
  if_IsReader true r s = r
  if_IsReader false r s = s

  pub ok_or-IsReader {μ} :
      {C : Type μ} (o : Option C) (x : E) {k : C → Bytes → Result E (A × Bytes)}
      → ((c : C) → IsReader (k c))
      → IsReader (λ input. ok_or o x >>= λ c. k c input)
  ok_or-IsReader (some c) x r = r c
  ok_or-IsReader none x r = fail-IsReader x

module _ {ℓ κ μ} {E : Type ℓ} {A : Type κ} {B : Type μ} where
  pub bind-IsReader :
      {p : Bytes → Result E (A × Bytes)} {k : A → Bytes → Result E (B × Bytes)}
      → IsReader p
      → ((a : A) → IsReader (k a))
      → IsReader (λ input. p input >>= λ t. k t.0 t.1)
  bind-IsReader {p} {k} r s = record {
    no_longer = λ input b rest e.
        let ((a, mid), e₁, e₂) = bind-eq-ok (p input) _ e in
        omega (arith, r.no_longer input a mid e₁, (s a).no_longer mid b rest e₂);
    framed = λ input b rest more e.
        let ((a, mid), e₁, e₂) = bind-eq-ok (p input) _ e in
        rw (r.framed input a mid more e₁) ((s a).framed mid b rest more e₂);
  }

pub decode_varint-IsReader : IsReader decode_varint
decode_varint-IsReader = record {
  no_longer = λ input v rest e. omega (arith, (decode_varint_takes input v rest e).1);
  framed = λ input v rest more e. decode_varint-append input more v rest e;
}

pub take_bytes-IsReader : (n : ℕ) → IsReader (λ input. take_bytes input n)
take_bytes-IsReader n = record {
  no_longer = λ input x rest e. (take_bytes_takes input n x rest e).1;
  framed = λ input x rest more e. take_bytes-append input more n x rest e;
}

pub take_delimited-IsReader : (w : ℕ) → IsReader (take_delimited w)
take_delimited-IsReader w = record {
  no_longer = λ input x rest e. omega (arith, take_delimited_takes w input x rest e);
  framed = λ input x rest more e. take_delimited-append w input more x rest e;
}

pub map_err-IsReader {ℓ κ μ} :
    {E : Type ℓ} {F : Type μ} {A : Type κ} {p : Bytes → Result E (A × Bytes)} (f : E → F)
    → IsReader p
    → IsReader (λ input. map_err f (p input))
map_err-IsReader {p} f r = record {
  no_longer = λ input a rest e. r.no_longer input a rest (map_err-eq-ok f (p input) e);
  framed =
      λ input a rest more e. rw (r.framed input a rest more (map_err-eq-ok f (p input) e)) refl;
}

-- A round that first takes a varint and goes on with a reader shortens the slice.
module _ {ℓ κ} {E : Type ℓ} {S : Type κ} (f : Error → E) (k : S → ℕ → Bytes → Result E (S × Bytes))
    (r : (s : S) (v : ℕ) → IsReader (k s v)) where
  abbrev pub varint_step : S → Bytes → Result E (S × Bytes)
  varint_step s input = map_err f (decode_varint input) >>= λ t. k s t.0 t.1

  pub varint_step-Shrinks : Shrinks varint_step
  varint_step-Shrinks s input s' rest e =
      let ((v, mid), e₁, e₂) = bind-eq-ok (map_err f (decode_varint input)) _ e in
      omega (
        arith,
        (decode_varint_takes input v mid (map_err-eq-ok f (decode_varint input) e₁)).1,
        (r s v).no_longer mid s' rest e₂,
      )

  pub varint_step-IsFramed : IsFramed varint_step
  varint_step-IsFramed s input s' rest more e =
      (bind-IsReader (map_err-IsReader f decode_varint-IsReader) (r s)).framed input s' rest more e
