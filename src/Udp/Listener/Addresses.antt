-- ===== src/Udp/Listener/Addresses.antt =====
-- The addresses of datagrams: the text of the IP address, and the port.
use usmp.Prelude.{
  ℕ, ◌≡◌, refl, ◌∙◌, ap, Bool, true, ◌&&◌, Bytes, bytes_eq, eq_of_bytes_eq, bytes_eq_refl, ◌==◌,
  eq_of_==, ==_refl, arith,
}
use usmp.Prelude.Dict.{Key}

abbrev pub Addr : Type 0
Addr = Bytes × ℕ

abbrev pub same_addr : Addr → Addr → Bool
same_addr a b = bytes_eq a.0 b.0 && (a.1 == b.1)

both_true : (p q : Bool) → (p && q) ≡ true → (p ≡ true) × (q ≡ true)
both_true p q h = ground arith

pub eq_of_same_addr : (a b : Addr) → same_addr a b ≡ true → a ≡ b
eq_of_same_addr a b h =
    let (ip, port) = both_true (bytes_eq a.0 b.0) (a.1 == b.1) h in
    ap (λ x. (x, a.1)) (eq_of_bytes_eq a.0 b.0 ip) ∙ ap (λ n. (b.0, n)) (eq_of_== a.1 b.1 port)

pub same_addr_refl : (a : Addr) → same_addr a a ≡ true
same_addr_refl a = rw (bytes_eq_refl a.0, ==_refl a.1) refl

abbrev pub addr_key : Key Addr
addr_key = record { same = same_addr; same_refl = same_addr_refl; eq_of_same = eq_of_same_addr }
