-- ===== src/NetworkTransforms/Signal/Laws.antt =====
-- networkTransforms.ts: how distance, width and colour hang together.
use native.Mathlib.Nat.{le_of_mul-le-mul_right, mul-le-mul_right}
use stridetastic.Prelude.{if◌then◌else◌, suc, ℕ, ◌+◌, ◌*◌, ◌≤◌, ◌≡◌, true, false, arith}
use stridetastic.Prelude.Int.{ℤ, pos, negsuc, Decimal, int, leb_dec, pos_part, neg_part}
use stridetastic.Types.{Edge}
use stridetastic.NetworkTransforms.Signal.{is_mqtt_link, get_link_distance, get_link_width}

-- The width determines the distance: on every link 20 of distance make up for one step of width, and
-- an MQTT link is drawn 60 further out than a radio link of its width.
pub distance-width :
    (edge : Edge)
    → get_link_distance edge + 20 * get_link_width edge ≡ (if is_mqtt_link edge then 220 else 160)
unfolding get_link_distance get_link_width
distance-width edge = ground arith

cross_trans :
    (cp cn ap an bp bn a b : ℕ)
    → cp * suc a + an ≤ ap + cn * suc a
    → ap * suc b + bn * suc a ≤ bp * suc a + an * suc b
    → cp * suc b + bn ≤ bp + cn * suc b
cross_trans cp cn ap an bp bn a b h k =
    le_of_mul-le-mul_right {k = suc a} (omega (arith, mul-le-mul_right (suc b) h)) (omega arith)

leb_dec_trans :
    (c : ℤ) (a b : Decimal)
    → leb_dec (int c) a ≡ true
    → leb_dec a b ≡ true
    → leb_dec (int c) b ≡ true
leb_dec_trans c a b h k = ground (
  arith,
  cross_trans (pos_part c) (neg_part c) (pos_part a.num) (neg_part a.num) (pos_part b.num)
      (neg_part b.num) a.over b.over,
)

-- Of two radio links the one with the better signal is drawn at least as wide.
pub get_link_width_mono :
    (a b : Edge)
    → is_mqtt_link a ≡ false
    → is_mqtt_link b ≡ false
    → leb_dec a.last_rx_snr b.last_rx_snr ≡ true
    → get_link_width a ≤ get_link_width b
unfolding get_link_width
get_link_width_mono a b h k le = ground (
  arith,
  leb_dec_trans (pos 10) a.last_rx_snr b.last_rx_snr,
  leb_dec_trans (pos 5) a.last_rx_snr b.last_rx_snr,
  leb_dec_trans (pos 0) a.last_rx_snr b.last_rx_snr,
  leb_dec_trans (negsuc 4) a.last_rx_snr b.last_rx_snr,
)
