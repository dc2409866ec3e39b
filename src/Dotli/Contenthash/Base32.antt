-- ===== src/Dotli/Contenthash/Base32.antt =====
-- The base32 writer of example/dotli/src/lib.rs as arithmetic: its digits are the digits of the
-- number that the bytes stand for, shifted to a whole number of digits.
use microdot.Base.{
  ℕ, zero, suc, ◌+◌, ◌*◌, ◌%◌, ◌^◌, ◌<◌, ◌≡◌, refl, ap, ◌∙◌, List, [], ◌∷◌, map, ◌++◌, Bytes,
  length, All, All-append, arith, length-append,
}
use microdot.Dotli.Words.{accumulate}
use microdot.Dotli.Contenthash.{drain, base32_digits, base32_lower_no_pad, alphabet, char_at}

-- The number that digits stand for behind `acc`.
abbrev pub number : ℕ → List ℕ → ℕ
number acc [] = acc
number acc (d ∷ digits) = number (acc * 32 + d) digits

number-append : (acc : ℕ) (xs ys : List ℕ) → number acc (xs ++ ys) ≡ number (number acc xs) ys
number-append acc [] ys = refl
number-append acc (x ∷ xs) ys = number-append (acc * 32 + x) xs ys

abbrev IsDigit : ℕ → Type 0
IsDigit d = d < 32

-- What draining the buffer keeps: the number read, and the count of bits.
record IsDrained (bits buf byte acc : ℕ) (drained : List ℕ × ℕ) : Type 0 where
  kept :
      number acc (drained.0) * 2 ^ (drained.1) + (buf * 256 % 2 ^ 32 + byte) % 2 ^ (drained.1)
      ≡ (acc * 2 ^ bits + buf % 2 ^ bits) * 256 + byte
  few : drained.1 < 5
  counted : 5 * length (drained.0) + drained.1 ≡ bits + 8
  digits : All IsDigit (drained.0)

by_five : (P : ℕ → Type 0) → P 0 → P 1 → P 2 → P 3 → P 4 → (n : ℕ) → n < 5 → P n
by_five P a b c d e zero h = a
by_five P a b c d e (suc zero) h = b
by_five P a b c d e (suc (suc zero)) h = c
by_five P a b c d e (suc (suc (suc zero))) h = d
by_five P a b c d e (suc (suc (suc (suc zero)))) h = e
by_five P a b c d e (suc (suc (suc (suc (suc n))))) h = absurd (omega (arith, h))

drain_0 :
    (buf byte acc : ℕ)
    → byte < 256
    → IsDrained 0 buf byte acc (drain 8 (buf * 256 % 2 ^ 32 + byte) 8)
drain_0 buf byte acc h = record {
  kept = omega (arith, h);
  few = omega arith;
  counted = omega arith;
  digits = (omega arith, tt);
}

drain_1 :
    (buf byte acc : ℕ)
    → byte < 256
    → IsDrained 1 buf byte acc (drain 9 (buf * 256 % 2 ^ 32 + byte) 9)
drain_1 buf byte acc h = record {
  kept = omega (arith, h);
  few = omega arith;
  counted = omega arith;
  digits = (omega arith, tt);
}

drain_2 :
    (buf byte acc : ℕ)
    → byte < 256
    → IsDrained 2 buf byte acc (drain 10 (buf * 256 % 2 ^ 32 + byte) 10)
drain_2 buf byte acc h = record {
  kept = omega (arith, h);
  few = omega arith;
  counted = omega arith;
  digits = (omega arith, (omega arith, tt));
}

drain_3 :
    (buf byte acc : ℕ)
    → byte < 256
    → IsDrained 3 buf byte acc (drain 11 (buf * 256 % 2 ^ 32 + byte) 11)
drain_3 buf byte acc h = record {
  kept = omega (arith, h);
  few = omega arith;
  counted = omega arith;
  digits = (omega arith, (omega arith, tt));
}

drain_4 :
    (buf byte acc : ℕ)
    → byte < 256
    → IsDrained 4 buf byte acc (drain 12 (buf * 256 % 2 ^ 32 + byte) 12)
drain_4 buf byte acc h = record {
  kept = omega (arith, h);
  few = omega arith;
  counted = omega arith;
  digits = (omega arith, (omega arith, tt));
}

drain-IsDrained :
    (bits buf byte acc : ℕ)
    → bits < 5
    → byte < 256
    → IsDrained bits buf byte acc (drain (bits + 8) (buf * 256 % 2 ^ 32 + byte) (bits + 8))
drain-IsDrained bits buf byte acc b h =
    by_five (λ n. IsDrained n buf byte acc (drain (n + 8) (buf * 256 % 2 ^ 32 + byte) (n + 8)))
      (drain_0 buf byte acc h) (drain_1 buf byte acc h) (drain_2 buf byte acc h)
      (drain_3 buf byte acc h) (drain_4 buf byte acc h) bits b

-- What the digits of the rest say: the whole number behind `seen`, the bits read before, and
-- `pad` zero bits that fill the last digit.
pub record IsBase32 (acc seen bits : ℕ) (input : Bytes) (ds : List ℕ) : Type 0 where
  pub pad : ℕ
  pub short : pad < 5
  pub digits : All IsDigit ds
  pub counted : 5 * length ds ≡ bits + 8 * length input + pad
  pub same : number acc ds ≡ accumulate seen input * 2 ^ pad

last_digit :
    (bits buf acc : ℕ)
    → bits < 5
    → IsBase32 acc (acc * 2 ^ bits + buf % 2 ^ bits) bits [] (base32_digits buf bits [])
unfolding base32_digits
last_digit bits buf acc h =
    by_five (λ n. IsBase32 acc (acc * 2 ^ n + buf % 2 ^ n) n [] (base32_digits buf n []))
      (record {
        pad = 0;
        short = omega arith;
        digits = tt;
        counted = omega arith;
        same = omega arith;
      })
      (record {
        pad = 4;
        short = omega arith;
        digits = (omega arith, tt);
        counted = omega arith;
        same = omega arith;
      })
      (record {
        pad = 3;
        short = omega arith;
        digits = (omega arith, tt);
        counted = omega arith;
        same = omega arith;
      })
      (record {
        pad = 2;
        short = omega arith;
        digits = (omega arith, tt);
        counted = omega arith;
        same = omega arith;
      })
      (record {
        pad = 1;
        short = omega arith;
        digits = (omega arith, tt);
        counted = omega arith;
        same = omega arith;
      })
      bits h

abbrev IsByte : ℕ → Type 0
IsByte b = b < 256

base32_digits-IsBase32 :
    (input : Bytes) (bits buf acc : ℕ)
    → bits < 5
    → All IsByte input
    → IsBase32 acc (acc * 2 ^ bits + buf % 2 ^ bits) bits input (base32_digits buf bits input)
unfolding base32_digits
base32_digits-IsBase32 [] bits buf acc b h = last_digit bits buf acc b
base32_digits-IsBase32 (byte ∷ input) bits buf acc b (h, hs) =
    let shifted = buf * 256 % 2 ^ 32 + byte in
    let drained = drain (bits + 8) shifted (bits + 8) in
    let d = drain-IsDrained bits buf byte acc b h in
    let rest =
      base32_digits-IsBase32 input (drained.1) shifted (number acc (drained.0)) (d.few) hs in
    record {
      pad = rest.pad;
      short = rest.short;
      digits = All-append IsDigit (drained.0) _ (d.digits) (rest.digits);
      counted = omega (
        arith,
        length-append (drained.0) (base32_digits shifted (drained.1) input),
        rest.counted,
        d.counted,
      );
      same =
          number-append acc (drained.0) _
          ∙ rest.same
          ∙ ap (λ n. accumulate n input * 2 ^ rest.pad) (d.kept);
    }

-- The base32 text of bytes spells digits, each below 32, of the number that the bytes stand for
-- times two to the number of padding bits, fewer than five, that fill the last digit: the writer
-- with its buffer of 32 bits and its count of bits loses and adds nothing, for any length.
pub base32_lower_no_pad_lem :
    (input : Bytes)
    → All (λ b. b < 256) input
    → (digits : List ℕ) × (base32_lower_no_pad input ≡ map (λ digit. char_at digit alphabet) digits)
      × IsBase32 0 0 0 input digits
unfolding base32_lower_no_pad
base32_lower_no_pad_lem input h =
    (base32_digits 0 0 input, refl, base32_digits-IsBase32 input 0 0 0 (omega arith) h)
