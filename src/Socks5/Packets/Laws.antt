-- ===== src/Socks5/Packets/Laws.antt =====
-- Proofs for Socks5/Packets: the loop over the stream ends, and forwards what the client wrote.
use uptp.Common.{
  ℕ, zero, suc, ◌<◌, ◌≡◌, ◌≢◌, inl, inr, refl, arith, String, List, Answer, Result-cases, length,
}
use uptp.Socks5.Datagram.{AddrCodec}
use uptp.Socks5.Framed.{socks5_read_from}
use uptp.Socks5.Framed.Laws.{read_shortens}
use uptp.Socks5.Packets.{starved, zeros, buffer_size, forward_up, relay_up}

pub length-zeros : (n : ℕ) → length (zeros n) ≡ n
unfolding zeros
length-zeros zero = refl
length-zeros (suc n) = omega (arith, length-zeros n)

module _ (codec : AddrCodec) (resolve : String → Answer String) where
  -- Fuel beyond the length of the stream changes nothing.
  same_fuel :
      (m n : ℕ) (buf conn : List ℕ)
      → length conn < m
      → length conn < n
      → forward_up codec resolve m buf conn ≡ forward_up codec resolve n buf conn
  unfolding forward_up
  same_fuel zero n buf conn h k = absurd (omega arith)
  same_fuel (suc m) zero buf conn h k = absurd (omega arith)
  same_fuel (suc m) (suc n) buf conn h k =
      let r = socks5_read_from codec buf conn in
      elim (Result-cases r.0) [
        | inl (d, q) ↦
            let less = read_shortens codec buf conn d q in
            ground (arith, q, same_fuel m n r.2 r.1 (omega (arith, less)) (omega (arith, less)))
        | inr (inl (e, q)) ↦ ground (arith, q)
        | inr (inr q) ↦ ground (arith, q)
      ]

  never_starved :
      (n : ℕ) (buf conn : List ℕ)
      → length conn < n
      → (forward_up codec resolve n buf conn).1 ≢ starved
  unfolding forward_up
  never_starved zero buf conn h = absurd (omega arith)
  never_starved (suc n) buf conn h =
      let r = socks5_read_from codec buf conn in
      elim (Result-cases r.0) [
        | inl (d, q) ↦
            let less = read_shortens codec buf conn d q in
            ground (arith, q, never_starved n r.2 r.1 (omega (arith, less)))
        | inr (inl (e, q)) ↦ ground (arith, q)
        | inr (inr q) ↦ ground (arith, q)
      ]

  -- The loop of a packet connection over its stream ends by itself, on whatever bytes come: it never
  -- runs out of fuel, and any fuel above the number of the bytes gives the same result.
  pub forward_up_ends :
      (fuel : ℕ) (conn : List ℕ)
      → length conn < fuel
      → ((relay_up codec resolve conn).1 ≢ starved)
        × (forward_up codec resolve fuel (zeros buffer_size) conn ≡ relay_up codec resolve conn)
  unfolding relay_up
  forward_up_ends fuel conn h = (
    never_starved (suc (length conn)) _ conn (omega arith),
    same_fuel fuel (suc (length conn)) _ conn h (omega arith),
  )
