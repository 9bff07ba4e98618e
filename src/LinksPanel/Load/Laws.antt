-- ===== src/LinksPanel/Load/Laws.antt =====
-- LinksPanel.tsx: the steps of the panel in any order of clicks and answers.
use mathlib.Core.Option.{some-injective, none-ne-some}
use mathlib.Core.Bool.{false≢true}
use stridetastic.Prelude.{
  ℕ, Bool, true, false, ◌&&◌, ◌≡◌, refl, sym, ap, ◌∙◌, Option, none, some, List, [], ◌∷◌, ◌++◌,
  if◌then◌else◌, eqb, eqb_iff, All, Memᴰ, Memᴰ-append, Memᴰ-cons, Bool-cases, if_rule, Option-cases,
  inl, inr,
}
use stridetastic.NetworkGraph.Interfaces.{find}
use stridetastic.Publishing.Periodic.Submit.{Reply, resolved, rejected}
use stridetastic.LinksPanel.Channels.{NodeLink, NodeLinkPacket}
use stridetastic.LinksPanel.Load.{
  LinksState, initial_links_state, start_link_details, details_answered, take_details, stall,
  start_links, finish_links, take_links, links_answered, handle_row_click, unmount, is_selected,
  clear_selection,
}

-- A panel and the requests for details that have no answer yet: the link, and whether the end of
-- loadLinks waits for it.
pub record World : Type 0 where
  pub panel : LinksState
  pub pending : List (ℕ × Bool)

abbrev pub with_request : Option ℕ → List (ℕ × Bool) → List (ℕ × Bool)
with_request none pending = pending
with_request (some id) pending = (id, true) ∷ pending

abbrev pub after_details : Bool → LinksState → LinksState
after_details waits s = if waits then finish_links s else s

-- `Owns id` holds of the packets of a link.
module _ (Owns : ℕ → NodeLinkPacket → Type 0) where
  -- The server answers for the link that it is asked for.
  abbrev pub IsAnswer : ℕ → Reply (NodeLink × List NodeLinkPacket) → Type 0
  IsAnswer id (resolved (link, packets)) = (link.id ≡ id) × All (Owns id) packets
  IsAnswer id (rejected message) = Unit

  -- Clicks are on the rows that are shown; an answer belongs to a request that was made.
  pub data Step : World → World → Type 0 where
    clicked :
        (w : World) (id : ℕ) (link : NodeLink)
        → w.panel.is_mounted ≡ true
        → find (λ other. eqb other.id id) w.panel.links ≡ some link
        → Step w (record { panel = handle_row_click id w.panel; pending = (id, false) ∷ w.pending })
    asked : (w : World) → Step w (record w { panel = start_links w.panel })
    links_came :
        (w : World) (reply : Reply (List NodeLink))
        → Step w (record {
          panel = (links_answered reply w.panel).0;
          pending = with_request (links_answered reply w.panel).1 w.pending;
        })
    details_came :
        (panel : LinksState) (before after : List (ℕ × Bool)) (id : ℕ) (waits : Bool)
        (reply : Reply (NodeLink × List NodeLinkPacket))
        → IsAnswer id reply
        → Step
            (record { panel = panel; pending = before ++ (id, waits) ∷ after })
            (record {
              panel = after_details waits (details_answered id reply panel);
              pending = before ++ after;
            })
    stalled : (w : World) → Step w (record w { panel = stall w.panel })
    unmounted : (w : World) → Step w (record w { panel = unmount w.panel })

  pub data Reach : World → Type 0 where
    start : Reach (record { panel = initial_links_state; pending = [] })
    next : {v w : World} → Reach v → Step v w → Reach w

  abbrev pub BelongsTo : Option ℕ → NodeLinkPacket → Type 0
  BelongsTo none packet = ⊥
  BelongsTo (some id) packet = Owns id packet

  abbrev pub link_id : Option NodeLink → Option ℕ
  link_id none = none
  link_id (some link) = some link.id

  -- The link that is shown is the selected one, the packets of a panel that is not loading are its packets,
  -- and a panel that is loading the packets of a link waits for an answer about that link.
  pub record IsConsistent (s : LinksState) (pending : List (ℕ × Bool)) : Type 0 where
    pub same : link_id s.selected_link ≡ s.selected_link_id
    pub shown : s.packets_loading ≡ false → All (BelongsTo s.selected_link_id) s.link_packets
    pub due :
        (id : ℕ)
        → s.is_mounted ≡ true
        → s.packets_loading ≡ true
        → s.selected_link_id ≡ some id
        → (waits : Bool) × Memᴰ (id, waits) pending

  found_id :
      (id : ℕ) (links : List NodeLink) (link : NodeLink)
      → find (λ other. eqb other.id id) links ≡ some link
      → link.id ≡ id
  found_id id [] link h = absurd (none-ne-some link h)
  found_id id (first ∷ more) link h = elim (Bool-cases (eqb first.id id)) [
    | inl e ↦
        ap (λ l. l.id) (sym (some-injective first link (rw e at h))) ∙ (eqb_iff first.id id).0 e
    | inr other ↦ found_id id more link (rw other at h)
  ]

  -- A panel that begins to load the packets of the link that it shows, with the request noted.
  start_link_details-IsConsistent :
      (s : LinksState) (id : ℕ) (waits : Bool) (pending : List (ℕ × Bool))
      → s.is_mounted ≡ true
      → link_id s.selected_link ≡ some id
      → s.selected_link_id ≡ some id
      → IsConsistent (start_link_details s) ((id, waits) ∷ pending)
  unfolding start_link_details
  start_link_details-IsConsistent s id waits pending on link selected = rw on (record {
    same = link ∙ sym selected;
    shown = λ h. absurd (false≢true (sym h));
    due = λ other m loading h.
        (waits, Memᴰ.head (ap (λ i. (i, waits)) (some-injective other id (sym h ∙ selected))));
  })

  finish_links-IsConsistent :
      (s : LinksState) (pending : List (ℕ × Bool))
      → IsConsistent s pending
      → IsConsistent (finish_links s) pending
  unfolding finish_links
  finish_links-IsConsistent s pending h =
      if_rule (λ t. IsConsistent t pending) s.is_mounted
        (record { same = h.same; shown = h.shown; due = h.due }) h

  after_details-IsConsistent :
      (waits : Bool) (s : LinksState) (pending : List (ℕ × Bool))
      → IsConsistent s pending
      → IsConsistent (after_details waits s) pending
  after_details-IsConsistent true s pending h = finish_links-IsConsistent s pending h
  after_details-IsConsistent false s pending h = h

  cleared-IsConsistent :
      (s : LinksState) (pending : List (ℕ × Bool)) → IsConsistent (clear_selection s) pending
  cleared-IsConsistent s pending = record {
    same = refl;
    shown = λ h. tt;
    due = λ id m loading h. absurd (none-ne-some id h);
  }

  take_links-IsConsistent :
      (reply : Reply (List NodeLink)) (s : LinksState) (pending : List (ℕ × Bool))
      → s.is_mounted ≡ true
      → IsConsistent (take_links reply s).0 (with_request (take_links reply s).1 pending)
  take_links-IsConsistent (resolved []) s pending on =
      finish_links-IsConsistent _ pending (cleared-IsConsistent (record s { links = [] }) pending)
  take_links-IsConsistent (resolved (first ∷ more)) s pending on =
      start_link_details-IsConsistent _ _ true pending on refl refl
  take_links-IsConsistent (rejected message) s pending on =
      let failed = record s {
        links = [];
        links_error = some "Unable to load link activity. Please try again.";
      } in
      finish_links-IsConsistent (clear_selection failed) pending
        (cleared-IsConsistent failed pending)

  selected_is : (id : ℕ) (s : LinksState) → is_selected id s ≡ true → s.selected_link_id ≡ some id
  selected_is id s h = elim (Option-cases s.selected_link_id) [
    | inl missing ↦ absurd (false≢true (rw missing at h))
    | inr (other, e) ↦ e ∙ ap some ((eqb_iff other id).0 (rw e at h))
  ]

  take_details-IsConsistent :
      (id : ℕ) (reply : Reply (NodeLink × List NodeLinkPacket)) (s : LinksState)
      (older newer : List (ℕ × Bool))
      → IsAnswer id reply
      → s.selected_link_id ≡ some id
      → IsConsistent s older
      → IsConsistent (take_details reply s) newer
  take_details-IsConsistent id (resolved (link, packets)) s older newer (own, theirs) selected h =
      record {
        same = ap some own ∙ sym selected;
        shown = λ l. rw selected theirs;
        due = λ other m loading e. absurd (false≢true loading);
      }
  take_details-IsConsistent id (rejected message) s older newer answer selected h = record {
    same = h.same;
    shown = λ l. tt;
    due = λ other m loading e. absurd (false≢true loading);
  }

  -- An answer that does not concern the selected link may leave the list of requests.
  others_due :
      (before after : List (ℕ × Bool)) (id : ℕ) (waits : Bool) (s : LinksState)
      → (s.is_mounted && is_selected id s) ≡ false
      → IsConsistent s (before ++ (id, waits) ∷ after)
      → IsConsistent s (before ++ after)
  others_due before after id waits s unconcerned h = record {
    same = h.same;
    shown = h.shown;
    due = λ other on loading selected.
        let (w, m) = h.due other on loading selected in
        (
          w,
          elim ((Memᴰ-append (other, w) before ((id, waits) ∷ after)).0 m) [
            | inl early ↦ (Memᴰ-append (other, w) before after).1 (inl early)
            | inr late ↦ elim ((Memᴰ-cons (other, w) (id, waits) after).0 late) [
              | inl e ↦ absurd (
                  false≢true
                    (sym unconcerned ∙ rw (on, selected) ((eqb_iff other id).1 (ap (λ r. r.0) e))))
              | inr later ↦ (Memᴰ-append (other, w) before after).1 (inr later)
            ]
          ],
        );
  }

  details_answered-IsConsistent :
      (before after : List (ℕ × Bool)) (id : ℕ) (waits : Bool)
      (reply : Reply (NodeLink × List NodeLinkPacket)) (s : LinksState)
      → IsAnswer id reply
      → IsConsistent s (before ++ (id, waits) ∷ after)
      → IsConsistent (details_answered id reply s) (before ++ after)
  unfolding details_answered
  details_answered-IsConsistent before after id waits reply s answer h =
      elim (Bool-cases (s.is_mounted && is_selected id s)) [
        | inl concerned ↦ rw concerned (
            take_details-IsConsistent id reply s (before ++ (id, waits) ∷ after) (before ++ after)
              answer (selected_is id s (and_right s.is_mounted (is_selected id s) concerned)) h)
        | inr unconcerned ↦ rw unconcerned (others_due before after id waits s unconcerned h)
      ]
    where
      and_right : (a b : Bool) → (a && b) ≡ true → b ≡ true
      and_right true b h = h
      and_right false b h = absurd (false≢true h)

  Step-IsConsistent :
      {v w : World} → Step v w → IsConsistent v.panel v.pending → IsConsistent w.panel w.pending
  unfolding handle_row_click start_links stall unmount links_answered
  Step-IsConsistent (clicked v id link on found) h = rw found (
      start_link_details-IsConsistent _ id false v.pending on
        (ap some (found_id id v.panel.links link found)) refl)
  Step-IsConsistent (asked v) h = record { same = h.same; shown = h.shown; due = h.due }
  Step-IsConsistent (links_came v reply) h = answered v.panel.is_mounted refl
    where
      answered :
          (mounted : Bool)
          → v.panel.is_mounted ≡ mounted
          → let result = if mounted then take_links reply v.panel else (v.panel, none) in
            IsConsistent result.0 (with_request result.1 v.pending)
      answered true on = take_links-IsConsistent reply v.panel v.pending on
      answered false off = h
  Step-IsConsistent (details_came panel before after id waits reply answer) h =
      after_details-IsConsistent waits _ (before ++ after)
        (details_answered-IsConsistent before after id waits reply panel answer h)
  Step-IsConsistent (stalled v) h =
      if_rule (λ t. IsConsistent t v.pending) v.panel.is_mounted
        (record { same = h.same; shown = h.shown; due = h.due }) h
  Step-IsConsistent (unmounted v) h = record {
    same = h.same;
    shown = h.shown;
    due = λ id m. absurd (false≢true m);
  }

  -- However the clicks, the requests and the answers follow one another, the link that is shown is the
  -- selected one, the packets are its packets unless they are loading, and while they load a request about
  -- the selected link has no answer yet; the server answers for the link that it is asked for.
  pub Reach-IsConsistent : {w : World} → Reach w → IsConsistent w.panel w.pending
  unfolding initial_links_state
  Reach-IsConsistent start = record {
    same = refl;
    shown = λ h. tt;
    due = λ id m loading h. absurd (false≢true loading);
  }
  Reach-IsConsistent (next before step) = Step-IsConsistent step (Reach-IsConsistent before)
