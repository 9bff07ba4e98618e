-- ===== src/LinksPanel/Tests.antt =====
-- LinksPanel.tsx: instances of the theorems on concrete packets and steps.
use stridetastic.Prelude.{
  subst, ℕ, String, true, ◌≡◌, refl, Option, none, some, List, [], ◌∷◌, length,
}
use stridetastic.Prelude.Int.{ℤ}
use stridetastic.Publishing.Periodic.Submit.{resolved}
use stridetastic.LinksPanel.Channels.{
  LinkNodeSummary, NodeLink, NodeLinkPacket, LinkChannelSummary, unknown, channel_tabs,
  filtered_chat_packets,
}
use stridetastic.LinksPanel.Channels.Laws.{count_of, count_of-channel_tabs}
use stridetastic.LinksPanel.Load.{
  initial_links_state, links_answered, details_answered, finish_links,
}
use stridetastic.LinksPanel.Load.Laws.{
  Step, World, Reach, start, next, links_came, details_came, IsConsistent, with_request,
  Reach-IsConsistent,
}

abbrev node : ℕ → LinkNodeSummary
node id = record { id = id; node_id = "!a"; node_num = id; short_name = none; long_name = none }

abbrev packet : Option LinkChannelSummary → NodeLinkPacket
packet channel = record {
  packet_id = none;
  timestamp = "";
  direction = unknown;
  from_node = node 1;
  to_node = node 2;
  port = none;
  port_display = none;
  channel = channel;
}

abbrev long_fast : Option LinkChannelSummary
long_fast = some (record { channel_id = "LongFast"; channel_num = none })

abbrev packets : List NodeLinkPacket
packets = packet long_fast ∷ packet none ∷ packet long_fast ∷ []

abbrev integer_text : ℤ → String
integer_text n = "8"

count_of-channel_tabs_example :
    count_of integer_text "LongFast::na" (channel_tabs integer_text packets)
    ≡ length (filtered_chat_packets integer_text "LongFast::na" packets)
count_of-channel_tabs_example = count_of-channel_tabs integer_text "LongFast::na" packets refl

abbrev link : NodeLink
link = record {
  id = 3;
  node_a = node 1;
  node_b = node 2;
  node_a_to_node_b_packets = 2;
  node_b_to_node_a_packets = 1;
  total_packets = 3;
  is_bidirectional = true;
  first_seen = "";
  last_activity = "";
  last_packet_id = none;
  last_packet_port = none;
  last_packet_port_display = none;
  last_packet_channel = none;
  channels = [];
}

-- Packets of the link 3
abbrev Owns : ℕ → NodeLinkPacket → Type 0
Owns id p = p.from_node.id ≡ 1

abbrev opened : World
opened = record { panel = initial_links_state; pending = [] }

abbrev listed : World
listed = record {
  panel = (links_answered (resolved (link ∷ [])) opened.panel).0;
  pending = (3, true) ∷ [];
}

abbrev loaded : World
loaded = record {
  panel = finish_links (details_answered 3 (resolved (link, packets)) listed.panel);
  pending = [];
}

listed_requests :
    record {
      panel = (links_answered (resolved (link ∷ [])) opened.panel).0;
      pending = with_request (links_answered (resolved (link ∷ [])) opened.panel).1 opened.pending;
    }
    ≡ listed
unfolding links_answered initial_links_state
listed_requests = refl

Reach-loaded : Reach Owns loaded
Reach-loaded =
    next
      (next start
        (subst (Step Owns opened) listed_requests (links_came opened (resolved (link ∷ [])))))
      (details_came listed.panel [] [] 3 true (resolved (link, packets))
        (refl, (refl, (refl, (refl, tt)))))

Reach-IsConsistent_example : IsConsistent Owns loaded.panel loaded.pending
Reach-IsConsistent_example = Reach-IsConsistent Owns Reach-loaded
