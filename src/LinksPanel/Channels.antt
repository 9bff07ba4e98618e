-- ===== src/LinksPanel/Channels.antt =====
-- LinksPanel.tsx: the data of a link, its orientation, and its packets by channel.
pub mod Laws
use Prim.Native.String.{◌++◌ as str_append}
use stridetastic.Prelude.{
  ℕ, ◌+◌, suc, String, Bool, true, false, Option, none, some, List, [], ◌∷◌, ◌++◌, ◌==◌,
  if◌then◌else◌, keep_if, leb, any,
}
use stridetastic.Prelude.Int.{ℤ}
use stridetastic.NetworkTransforms.Build.{text_or}

pub record LinkNodeSummary : Type 0 where
  pub id : ℕ
  pub node_id : String
  pub node_num : ℕ
  pub short_name : Option String
  pub long_name : Option String

pub record LinkChannelSummary : Type 0 where
  pub channel_id : String
  pub channel_num : Option ℤ

pub record NodeLink : Type 0 where
  pub id : ℕ
  pub node_a : LinkNodeSummary
  pub node_b : LinkNodeSummary
  pub node_a_to_node_b_packets : ℕ
  pub node_b_to_node_a_packets : ℕ
  pub total_packets : ℕ
  pub is_bidirectional : Bool
  pub first_seen : String
  pub last_activity : String
  pub last_packet_id : Option ℕ
  pub last_packet_port : Option String
  pub last_packet_port_display : Option String
  pub last_packet_channel : Option LinkChannelSummary
  pub channels : List LinkChannelSummary

pub data LinkPacketDirection : Type 0 where
  node_a_to_node_b node_b_to_node_a unknown : LinkPacketDirection

-- A packet without its payload, which the panel only renders.
pub record NodeLinkPacket : Type 0 where
  pub packet_id : Option ℕ
  pub timestamp : String
  pub direction : LinkPacketDirection
  pub from_node : LinkNodeSummary
  pub to_node : LinkNodeSummary
  pub port : Option String
  pub port_display : Option String
  pub channel : Option LinkChannelSummary

unfoldable pub node_display : LinkNodeSummary → String
node_display node = text_or node.short_name (text_or node.long_name node.node_id)

pub record OrderedLinkView : Type 0 where
  pub left_node : LinkNodeSummary
  pub right_node : LinkNodeSummary
  pub left_to_right_packets : ℕ
  pub right_to_left_packets : ℕ
  pub is_flipped : Bool

unfoldable pub orient_link : NodeLink → OrderedLinkView
orient_link link =
    if leb link.node_b_to_node_a_packets link.node_a_to_node_b_packets
    then (record {
      left_node = link.node_a;
      right_node = link.node_b;
      left_to_right_packets = link.node_a_to_node_b_packets;
      right_to_left_packets = link.node_b_to_node_a_packets;
      is_flipped = false;
    })
    else (record {
      left_node = link.node_b;
      right_node = link.node_a;
      left_to_right_packets = link.node_b_to_node_a_packets;
      right_to_left_packets = link.node_a_to_node_b_packets;
      is_flipped = true;
    })

-- `directionSummary`: a label and a number of packets for each direction.
unfoldable pub direction_summary : Option OrderedLinkView → List (String × ℕ)
direction_summary none = []
direction_summary (some view) =
    let left = node_display view.left_node in
    let right = node_display view.right_node in
    (str_append left (str_append " → " right), view.left_to_right_packets)
    ∷ (str_append right (str_append " → " left), view.right_to_left_packets)
    ∷ []

pub record ChannelTabInfo : Type 0 where
  pub key : String
  pub label : String
  pub count : ℕ

-- Of the sort by label only the order is the browser's: `sort` is what it makes of the tabs.
module _ (integer_text : ℤ → String) where
  unfoldable pub get_channel_key : Option LinkChannelSummary → String
  get_channel_key none = "unknown"
  get_channel_key (some channel) =
      if channel.channel_id == ""
      then "unknown"
      else str_append channel.channel_id
          (str_append "::" (elim channel.channel_num [ none ↦ "na" | some n ↦ integer_text n ]))

  unfoldable pub format_channel_label : Option LinkChannelSummary → String
  format_channel_label none = "Unknown channel"
  format_channel_label (some channel) =
      if channel.channel_id == "" then "Unknown channel" else (elim channel.channel_num [
        | none ↦ channel.channel_id
        | some n ↦ str_append channel.channel_id (str_append " · #" (integer_text n))
      ])

  -- The tab of a key counts one more, or is added.
  unfoldable pub count_packet : NodeLinkPacket → List ChannelTabInfo → List ChannelTabInfo
  count_packet packet [] =
      record {
        key = get_channel_key packet.channel;
        label = format_channel_label packet.channel;
        count = 1;
      }
      ∷ []
  count_packet packet (tab ∷ tabs) =
      let rest = count_packet packet tabs in
      if tab.key == get_channel_key packet.channel
      then (record tab { count = suc tab.count }) ∷ tabs
      else tab ∷ rest

  unfoldable pub count_packets : List ChannelTabInfo → List NodeLinkPacket → List ChannelTabInfo
  count_packets tabs [] = tabs
  count_packets tabs (packet ∷ packets) = count_packets (count_packet packet tabs) packets

  -- `channelTabs`, before the sort
  unfoldable pub channel_tabs : List NodeLinkPacket → List ChannelTabInfo
  channel_tabs packets = count_packets [] packets

  -- `filteredChatPackets`
  unfoldable pub filtered_chat_packets : String → List NodeLinkPacket → List NodeLinkPacket
  filtered_chat_packets active packets =
      if active == "all"
      then packets
      else keep_if (λ packet. get_channel_key packet.channel == active) packets

  -- The effect that leaves the tab of a channel without packets.
  unfoldable pub active_channel_key : List ChannelTabInfo → String → String
  active_channel_key tabs active =
      if active == "all"
      then active
      else (if any (λ tab. tab.key == active) tabs then active else "all")
