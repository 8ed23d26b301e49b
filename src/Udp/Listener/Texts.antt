-- ===== src/Udp/Listener/Texts.antt =====
-- What a cookie is the code of.
use mathlib.Core.List.{append_assoc}
use usmp.Prelude.{ℕ, ◌^◌, ◌<◌, ◌≡◌, ◌∙◌, sym, ap, ◌∷◌, ◌++◌}
use usmp.Udp.Listener.{cookie_message}
use usmp.Udp.Listener.Addresses.{Addr}
use usmp.Udp.Listener.Decimal.{decimal, decimal-eq, decimal-has_colon, last_colon}

-- For ports and intervals below 10 to the power of 20, the texts that two cookies are the codes of
-- are equal only if both the address with its port and the interval are.
pub cookie_message-eq :
    (a b : Addr) (m n : ℕ)
    → a.1 < 10 ^ 20
    → b.1 < 10 ^ 20
    → m < 10 ^ 20
    → n < 10 ^ 20
    → cookie_message a (decimal m) ≡ cookie_message b (decimal n)
    → (a ≡ b) × (m ≡ n)
cookie_message-eq a b m n ha hb hm hn h =
    let whole : (a.0 ++ 0x3a ∷ decimal a.1) ++ 0x3a ∷ decimal m
        ≡ (b.0 ++ 0x3a ∷ decimal b.1) ++ 0x3a ∷ decimal n =
      append_assoc a.0 (0x3a ∷ decimal a.1) (0x3a ∷ decimal m)
      ∙ h
      ∙ sym (append_assoc b.0 (0x3a ∷ decimal b.1) (0x3a ∷ decimal n)) in
    let (front, times) =
      last_colon (a.0 ++ 0x3a ∷ decimal a.1) (b.0 ++ 0x3a ∷ decimal b.1) (decimal m) (decimal n)
        (decimal-has_colon m) (decimal-has_colon n) whole in
    let (ips, ports) =
      last_colon a.0 b.0 (decimal a.1) (decimal b.1) (decimal-has_colon a.1) (decimal-has_colon b.1)
        front in
    (
      ap (λ x. (x, a.1)) ips ∙ ap (λ k. (b.0, k)) (decimal-eq a.1 b.1 ha hb ports),
      decimal-eq m n hm hn times,
    )
