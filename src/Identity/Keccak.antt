-- ===== src/Identity/Keccak.antt =====
-- identity.js, `keccak256`: 25 lanes of 64 bits, the bytes of a rate of 136 absorbed at a time.
use open_beanie.Base.{
  ℕ, zero, suc, ◌+◌, ◌-◌, ◌*◌, ◌/◌, ◌%◌, ◌^◌, bit_and, bit_or, List, [], ◌∷◌, ◌++◌, length, get_or,
  take, drop, replicate,
}
use open_beanie.Base.Bits.{shl, shr, low_bits}
use Prim.Native.Nat.{bit_xor}

abbrev m64 : ℕ
m64 = 2 ^ 64 - 1

-- `st[i] = v`
abbrev pub set : List ℕ → ℕ → ℕ → List ℕ
set [] i v = []
set (x ∷ xs) zero v = v ∷ xs
set (x ∷ xs) (suc i) v = x ∷ set xs i v

-- `for (let i = 0; i < n; i++)`: the round `n` comes behind those below it.
pub rounds {ℓ} : {S : Type ℓ} → ℕ → (ℕ → S → S) → S → S
rounds zero body s = s
rounds (suc n) body s = body n (rounds n body s)

abbrev at : List ℕ → ℕ → ℕ
at st i = get_or st i 0

pub rotl : ℕ → ℕ → ℕ
rotl x n = bit_and (bit_or (shl x n) (shr x (64 - n))) m64

abbrev rc : List ℕ
rc =
    0x0000000000000001 ∷ 0x0000000000008082 ∷ 0x800000000000808a ∷ 0x8000000080008000
    ∷ 0x000000000000808b ∷ 0x0000000080000001 ∷ 0x8000000080008081 ∷ 0x8000000000008009
    ∷ 0x000000000000008a ∷ 0x0000000000000088 ∷ 0x0000000080008009 ∷ 0x000000008000000a
    ∷ 0x000000008000808b ∷ 0x800000000000008b ∷ 0x8000000000008089 ∷ 0x8000000000008003
    ∷ 0x8000000000008002 ∷ 0x8000000000000080 ∷ 0x000000000000800a ∷ 0x800000008000000a
    ∷ 0x8000000080008081 ∷ 0x8000000000008080 ∷ 0x0000000080000001 ∷ 0x8000000080008008 ∷ []

abbrev rotc : List ℕ
rotc =
    1 ∷ 3 ∷ 6 ∷ 10 ∷ 15 ∷ 21 ∷ 28 ∷ 36 ∷ 45 ∷ 55 ∷ 2 ∷ 14 ∷ 27 ∷ 41 ∷ 56 ∷ 8 ∷ 25 ∷ 43 ∷ 62 ∷ 18
    ∷ 39 ∷ 61 ∷ 20 ∷ 44 ∷ []

abbrev piln : List ℕ
piln =
    10 ∷ 7 ∷ 11 ∷ 17 ∷ 18 ∷ 3 ∷ 5 ∷ 16 ∷ 8 ∷ 21 ∷ 24 ∷ 4 ∷ 15 ∷ 23 ∷ 19 ∷ 13 ∷ 12 ∷ 2 ∷ 20 ∷ 14 ∷ 22
    ∷ 9 ∷ 6 ∷ 1 ∷ []

pub column : List ℕ → ℕ → ℕ
column st i =
    bit_xor
      (bit_xor (bit_xor (bit_xor (at st i) (at st (i + 5))) (at st (i + 10))) (at st (i + 15)))
      (at st (i + 20))

-- The first two loops: the parities of the columns, and each lane with those of two columns.
pub theta : List ℕ → List ℕ
unfolding rounds column rotl
theta st =
    let bc = column st 0 ∷ column st 1 ∷ column st 2 ∷ column st 3 ∷ column st 4 ∷ [] in
    rounds 5
      (λ i s.
        let t = bit_xor (at bc ((i + 4) % 5)) (rotl (at bc ((i + 1) % 5)) 1) in
        rounds 5 (λ j s'. set s' (5 * j + i) (bit_xor (at s' (5 * j + i)) t)) s)
      st

-- The third loop moves the lane `t` on, rotated.
pub rho_pi : List ℕ → List ℕ
unfolding rounds rotl
rho_pi st =
    (rounds {S = List ℕ × ℕ} 24
      (λ i s. (set s.0 (at piln i) (rotl s.1 (at rotc i)), at s.0 (at piln i))) (st, at st 1)).0

-- The last two loops, for each row.
pub chi : List ℕ → List ℕ
unfolding rounds
chi st =
    rounds 5
      (λ j s.
        let bc = take 5 (drop (5 * j) s) in
        rounds 5
          (λ i s'. set s' (5 * j + i) (
            bit_xor (at s' (5 * j + i))
              (bit_and (bit_xor (at bc ((i + 1) % 5)) m64) (at bc ((i + 2) % 5)))))
          s)
      st

pub keccak_round : ℕ → List ℕ → List ℕ
unfolding theta rho_pi chi
keccak_round round st = let s = chi (rho_pi (theta st)) in set s 0 (bit_xor (at s 0) (at rc round))

pub keccak_f : List ℕ → List ℕ
unfolding rounds keccak_round
keccak_f st = rounds 24 keccak_round st

-- `Math.ceil((input.length + 1) / rate) * rate` bytes; the two marks may fall on one byte.
pub padded : List ℕ → List ℕ
padded input =
    let size = (length input + 136) / 136 * 136 in
    let bytes = input ++ replicate (size - length input) 0 in
    let marked = set bytes (length input) (bit_xor (at bytes (length input)) 1) in
    set marked (size - 1) (bit_xor (at marked (size - 1)) 0x80)

-- Eight bytes as a lane, the last one highest.
pub lane_of : List ℕ → ℕ
lane_of [] = 0
lane_of (b ∷ bytes) = lane_of bytes * 256 + b

pub absorb_lanes : ℕ → ℕ → List ℕ → List ℕ → List ℕ
unfolding lane_of
absorb_lanes zero i block st = st
absorb_lanes (suc n) i block st =
    absorb_lanes n (i + 1) (drop 8 block) (set st i (bit_xor (at st i) (lane_of (take 8 block))))

-- The loop over the blocks that are left.
pub absorb : ℕ → List ℕ → List ℕ → List ℕ
unfolding absorb_lanes keccak_f
absorb zero bytes st = st
absorb (suc n) bytes st =
    absorb n (drop 136 bytes) (keccak_f (absorb_lanes 17 0 (take 136 bytes) st))

-- The bytes of a lane, lowest first.
pub lane_bytes : ℕ → ℕ → List ℕ
lane_bytes zero v = []
lane_bytes (suc n) v = low_bits v 8 ∷ lane_bytes n (shr v 8)

unfoldable pub keccak256 : List ℕ → List ℕ
unfolding padded absorb lane_bytes
keccak256 input =
    let bytes = padded input in
    let st = absorb (length bytes / 136) bytes (replicate 25 0) in
    lane_bytes 8 (at st 0)
    ++ (lane_bytes 8 (at st 1) ++ (lane_bytes 8 (at st 2) ++ lane_bytes 8 (at st 3)))
