-- ===== src/Monitor/Address/Ranges.antt =====
-- The blocked IPv4 networks in dotted notation: crates/nopager-monitor/src/lib.rs.
use nopager.Prelude.{
  ℕ, ◌+◌, ◌*◌, ◌/◌, ◌^◌, ◌<◌, Bool, false, ◌&&◌, ◌||◌, ◌≡◌, arith, leb, any, ◌==◌, if◌then◌else◌,
  ok, err,
}
use nopager.Monitor.Address.{IpAddr, v4, non_public_target, validate_public_ip, contains, blocked}

-- a.b.c.d
abbrev pub dotted : ℕ → ℕ → ℕ → ℕ → IpAddr
dotted a b c d = v4 (((a * 256 + b) * 256 + c) * 256 + d)

-- The ranges that the comment in the source names, octet by octet.
abbrev pub is_special : ℕ → ℕ → ℕ → Bool
is_special a b c =
    a == 0
    || (a == 10
        || ((a == 100 && (leb 64 b && leb b 127))
            || (a == 127
                || ((a == 169 && b == 254)
                    || ((a == 172 && (leb 16 b && leb b 31))
                        || ((a == 192 && (b == 0 && c == 0))
                            || ((a == 192 && (b == 0 && c == 2))
                                || ((a == 192 && (b == 88 && c == 99))
                                    || ((a == 192 && b == 168)
                                        || ((a == 198 && (b == 18 || b == 19))
                                            || ((a == 198 && (b == 51 && c == 100))
                                                || ((a == 203 && (b == 0 && c == 113))
                                                    || leb 224 a))))))))))))

-- The quotients by which the networks are told apart.
record Quotients (a b c n : ℕ) : Type 0 where
  by_8 : n / 2 ^ 24 ≡ a
  by_10 : n / 2 ^ 22 ≡ a * 4 + b / 64
  by_12 : n / 2 ^ 20 ≡ a * 16 + b / 16
  by_15 : n / 2 ^ 17 ≡ a * 128 + b / 2
  by_16 : n / 2 ^ 16 ≡ a * 256 + b
  by_24 : n / 2 ^ 8 ≡ (a * 256 + b) * 256 + c
  by_4 : n / 2 ^ 28 ≡ a / 16

quotients :
    (a b c d : ℕ)
    → a < 256
    → b < 256
    → c < 256
    → d < 256
    → Quotients a b c (((a * 256 + b) * 256 + c) * 256 + d)
quotients a b c d pa pb pc pd = record {
  by_8 = omega arith;
  by_10 = omega arith;
  by_12 = omega arith;
  by_15 = omega arith;
  by_16 = omega arith;
  by_24 = omega arith;
  by_4 = omega arith;
}

tenth : (a b : ℕ) → b < 256 → (a * 4 + b / 64 == 401) ≡ (a == 100 && (leb 64 b && leb b 127))
tenth a b h = ground arith

twelfth : (a b : ℕ) → b < 256 → (a * 16 + b / 16 == 2753) ≡ (a == 172 && (leb 16 b && leb b 31))
twelfth a b h = ground arith

fifteenth : (a b : ℕ) → b < 256 → (a * 128 + b / 2 == 25353) ≡ (a == 198 && (b == 18 || b == 19))
fifteenth a b h = ground arith

top : (a : ℕ) → a < 256 → (a / 16 == 14 || (a / 16 == 15 || false)) ≡ leb 224 a
top a h = ground arith

pair : (a b x y : ℕ) → b < 256 → y < 256 → (a * 256 + b == x * 256 + y) ≡ (a == x && b == y)
pair a b x y h k = ground arith

triple :
    (a b c x y z : ℕ)
    → b < 256
    → c < 256
    → y < 256
    → z < 256
    → ((a * 256 + b) * 256 + c == (x * 256 + y) * 256 + z) ≡ (a == x && (b == y && c == z))
triple a b c x y z hb hc hy hz = ground arith

any-blocked :
    (a b c n : ℕ)
    → a < 256
    → b < 256
    → c < 256
    → Quotients a b c n
    → any (λ network. contains network (v4 n)) blocked ≡ is_special a b c
any-blocked a b c n pa pb pc q =
    rw (q.by_8, q.by_10, q.by_12, q.by_15, q.by_16, q.by_24, q.by_4)
      (rw (
        tenth a b pb,
        pair a b 169 254 pb (omega arith),
        twelfth a b pb,
        triple a b c 192 0 0 pb pc (omega arith) (omega arith),
        triple a b c 192 0 2 pb pc (omega arith) (omega arith),
        triple a b c 192 88 99 pb pc (omega arith) (omega arith),
        pair a b 192 168 pb (omega arith),
        fifteenth a b pb,
        triple a b c 198 51 100 pb pc (omega arith) (omega arith),
        triple a b c 203 0 113 pb pc (omega arith) (omega arith),
        top a pa,
      ))

-- An IPv4 address a.b.c.d passes exactly if its octets lie in none of the special-use ranges.
pub validate_public_ip-dotted :
    (a b c d : ℕ)
    → a < 256
    → b < 256
    → c < 256
    → d < 256
    → validate_public_ip (dotted a b c d)
      ≡ (if is_special a b c then err non_public_target else ok tt)
unfolding validate_public_ip
validate_public_ip-dotted a b c d pa pb pc pd =
    rw (any-blocked a b c _ pa pb pc (quotients a b c d pa pb pc pd))
