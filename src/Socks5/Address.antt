-- ===== src/Socks5/Address.antt =====
-- `std::net`: how `to_string` shows an IPv4 and an IPv6 address.
use xssh_rust_lib.Base.{
  ℕ, ◌+◌, ◌-◌, ◌*◌, ◌/◌, ◌%◌, Text, codes, ◌&&◌, List, [], ◌∷◌, ◌++◌, map, take, drop, all, ltb,
  ◌==◌, nat_eq, if◌then◌else◌,
}
use xssh_rust_lib.Base.Str.{join}
use xssh_rust_lib.Base.Str.Decimal.{to_decimal}

unfoldable pub show_ipv4 : List ℕ → Text
unfolding join
show_ipv4 bytes = join (b'.' ∷ []) (map to_decimal bytes)

hex_digit : ℕ → ℕ
hex_digit d = if ltb d 10 then b'0' + d else b'a' + (d - 10)

-- `{:x}` of a number below 2^16
unfoldable pub show_hex : ℕ → Text
unfolding hex_digit
show_hex n =
    (if ltb n 0x1000 then [] else hex_digit (n / 0x1000) ∷ [])
    ++ ((if ltb n 0x100 then [] else hex_digit (n / 0x100 % 16) ∷ [])
        ++ ((if ltb n 0x10 then [] else hex_digit (n / 0x10 % 16) ∷ [])
            ++ (hex_digit (n % 16) ∷ [])))

segments : List ℕ → List ℕ
segments (high ∷ low ∷ bytes) = (high * 256 + low) ∷ segments bytes
segments _ = []

-- The first of the longest runs of zero segments: where it starts and how long it is. The run that
-- ends at `position` starts `current` segments before it.
longest_zeros : List ℕ → ℕ → ℕ → ℕ × ℕ → ℕ × ℕ
longest_zeros [] position current best = best
longest_zeros (s ∷ rest) position current (start, count) =
    let run = if s == 0 then current + 1 else 0 in
    longest_zeros rest (position + 1) run
      (if ltb count run then (position + 1 - run, run) else (start, count))

show_segments : List ℕ → Text
show_segments parts = join (b':' ∷ []) (map show_hex parts)

show_compressed : List ℕ → ℕ × ℕ → Text
show_compressed parts (start, count) =
    if ltb 1 count
    then show_segments (take start parts)
      ++ (codes "::" ++ show_segments (drop (start + count) parts))
    else show_segments parts

-- An IPv4-mapped address ends in the form of IPv4.
unfoldable pub show_ipv6 : List ℕ → Text
unfolding codes join show_hex segments longest_zeros show_segments show_compressed all
show_ipv6 bytes =
    if all (λ b. b == 0) (take 10 bytes) && all (λ b. b == 255) (take 2 (drop 10 bytes))
    then codes "::ffff:" ++ show_ipv4 (drop 12 bytes)
    else show_compressed (segments bytes) (longest_zeros (segments bytes) 0 0 (0, 0))
