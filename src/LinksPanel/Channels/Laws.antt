-- ===== src/LinksPanel/Channels/Laws.antt =====
-- LinksPanel.tsx: the numbers on the tabs.
use stridetastic.Prelude.{
  disjoint, ◌&&◌, ℕ, ◌+◌, suc, String, Bool, true, false, ◌≡◌, refl, ap, ◌∙◌, List, [], ◌∷◌, ◌==◌,
  if◌then◌else◌, keep_if, length, arith, Bool-cases, inl, inr, eq_iff,
}
use stridetastic.Prelude.Int.{ℤ}
use stridetastic.LinksPanel.Channels.{
  NodeLinkPacket, ChannelTabInfo, get_channel_key, count_packet, count_packets, channel_tabs,
  filtered_chat_packets,
}

counted :
    (b : Bool) (m n : ℕ)
    → (if b then suc m else n) ≡ (if b then suc (if b then m else n) else (if b then m else n))
counted true m n = refl
counted false m n = refl

apart_counted :
    (a b : Bool) (m n : ℕ)
    → (a && b) ≡ false
    → (if a then m else (if b then suc n else n))
      ≡ (if b then suc (if a then m else n) else (if a then m else n))
apart_counted true true m n h = cc
apart_counted true false m n h = refl
apart_counted false b m n h = refl

module _ (integer_text : ℤ → String) where
  abbrev pub has_key : String → NodeLinkPacket → Bool
  has_key k packet = get_channel_key integer_text packet.channel == k

  -- The number on the tab of a key; 0 without a tab.
  abbrev pub count_of : String → List ChannelTabInfo → ℕ
  count_of k [] = 0
  count_of k (tab ∷ tabs) = if tab.key == k then tab.count else count_of k tabs

  count_of-count_packet :
      (k : String) (packet : NodeLinkPacket) (tabs : List ChannelTabInfo)
      → count_of k (count_packet integer_text packet tabs)
        ≡ (if has_key k packet then suc (count_of k tabs) else count_of k tabs)
  unfolding count_packet
  count_of-count_packet k packet [] = refl
  count_of-count_packet k packet (tab ∷ tabs) =
      let rest = count_of-count_packet k packet tabs in
      elim (Bool-cases (tab.key == get_channel_key integer_text packet.channel)) [
        | inl same ↦
            rw (same, (eq_iff tab.key (get_channel_key integer_text packet.channel)).0 same)
              (counted (has_key k packet) tab.count (count_of k tabs))
        | inr apart ↦
            rw (apart, rest)
              (apart_counted (tab.key == k) (has_key k packet) tab.count (count_of k tabs)
                (disjoint tab.key (get_channel_key integer_text packet.channel) k apart))
      ]

  count_of-count_packets :
      (k : String) (tabs : List ChannelTabInfo) (packets : List NodeLinkPacket)
      → count_of k (count_packets integer_text tabs packets)
        ≡ count_of k tabs + length (keep_if (has_key k) packets)
  unfolding count_packets
  count_of-count_packets k tabs [] = omega arith
  count_of-count_packets k tabs (packet ∷ packets) =
      let rest =
        count_of-count_packets k (count_packet integer_text packet tabs) packets
        ∙ ap (λ n. n + length (keep_if (has_key k) packets))
            (count_of-count_packet k packet tabs) in
      elim (Bool-cases (has_key k packet)) [
        | inl same ↦ rest ∙ rw (same, keep_if) (omega arith)
        | inr apart ↦ rest ∙ rw (apart, keep_if) refl
      ]

  -- The number on the tab of a channel is the number of packets that choosing it shows, and a channel
  -- without packets has no tab or a tab with 0.
  pub count_of-channel_tabs :
      (k : String) (packets : List NodeLinkPacket)
      → (k == "all") ≡ false
      → count_of k (channel_tabs integer_text packets)
        ≡ length (filtered_chat_packets integer_text k packets)
  unfolding channel_tabs filtered_chat_packets
  count_of-channel_tabs k packets one =
      rw one
        (count_of-count_packets k [] packets ∙ from_zero (length (keep_if (has_key k) packets)))
    where
      from_zero : (n : ℕ) → 0 + n ≡ n
      from_zero n = omega arith
