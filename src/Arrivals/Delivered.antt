-- ===== src/Arrivals/Delivered.antt =====
-- The delivery of scripts/arrival_notifier.py: the messages that go through and their entries.
use rawrz.Prelude.{
  ℕ, ◌≡◌, ◌≢◌, refl, sym, ap, ◌∙◌, Bool, true, false, ◌||◌, Option, none, some, List, [], ◌∷◌,
  String, arith, contains, ◌==◌, nat_eq, string_eq,
}
use mathlib.Core.Path.{subst}
use rawrz.Prelude.Result.{Result}
use rawrz.Exec.{◌>>=◌, ◌>>◌, pure}
use rawrz.Exec.Works.{Gives, Works, Works-bind, Works-pure, Works-if, Gives-bind, Gives-weaken}
use rawrz.Arrivals.{
  Request, Posted, posted, not_posted, broke, Section, Notice, Host, World, Config, Arrival, keys,
}
use rawrz.Arrivals.Notifier.{
  ask, with_id, refresh_first, after_sections, plex_section_refresh, refresh, after_post, send,
  sorted_out, deliver, note_one, note_all,
}
use rawrz.Arrivals.Ids.{arrival_ids, Distinct, keys-assign}
use rawrz.Arrivals.Classified.{Same, ask-Works}

-- No message fails with an exception that the code does not catch.
abbrev pub Posts : Host → Type 0
Posts H = (m : String) (t : H.Net) (e : String) → (H.post m t).0 ≢ broke e

module _ (H : Host) (file : List (ℕ × Notice)) where
  module _ (sent : List ℕ) where
    refresh_first-Works :
        (base token wanted : String) (ss : List Section)
        → Works (Same H file sent) (refresh_first H base token wanted ss)
    unfolding refresh_first
    refresh_first-Works base token wanted [] = Works-pure _ false
    refresh_first-Works base token wanted (s ∷ ss) =
        Works-if _ (s.type == wanted) _ _
          (Works-bind _ _ _ (ask-Works H file sent _) (λ r. Works-pure _ _))
          (refresh_first-Works base token wanted ss)

    after_sections-Works :
        (base token wanted : String) (r : Result (List Section))
        → Works (Same H file sent) (after_sections H base token wanted r)
    unfolding after_sections
    after_sections-Works base token wanted (Result.err e) = Works-pure _ false
    after_sections-Works base token wanted (Result.ok ss) = refresh_first-Works base token wanted ss

    refresh-Works : (c : Config) (a : Arrival) → Works (Same H file sent) (refresh H c a)
    unfolding refresh plex_section_refresh
    refresh-Works c a = Works-if _ c.no_refresh _ _ (Works-pure _ false) (
        Works-if _ (c.plex_token == "") _ _ (Works-pure _ false)
          (Works-bind _ _ _ (ask-Works H file sent _) (λ r. after_sections-Works _ _ _ r)))

  -- The messages that went through, after one more that went through or not.
  abbrev sent_after : Option ℕ → List ℕ → Bool → List ℕ
  sent_after id sent true = with_id id sent
  sent_after id sent false = sent

  module _ (posts : Posts H) where
    after_post-Gives :
        (r : Request) (p : Posted) (sent : List ℕ) (w : World H)
        → ((e : String) → p ≢ broke e)
        → Same H file sent w
        → Gives (λ b. Same H file (sent_after r.id sent b)) (after_post H r p w)
    unfolding after_post
    after_post-Gives r posted sent w n h = record {
      file_same = h.file_same;
      sent_same = ap (with_id r.id) h.sent_same;
    }
    after_post-Gives r not_posted sent w n h = h
    after_post-Gives r (broke e) sent w n h = n e refl

    send-Gives :
        (a : Arrival) (sent : List ℕ) (w : World H)
        → Same H file sent w
        → Gives (λ b. Same H file (sent_after a.request.id sent b)) (send H a w)
    unfolding send ask ◌>>=◌
    send-Gives a sent w h =
        after_post-Gives a.request (H.post _ w.net).0 sent _ (posts _ w.net)
          (record { file_same = h.file_same; sent_same = h.sent_same })

    -- What the delivery of arrivals leads to.
    pub record Delivered (as' : List Arrival) (before : List ℕ) (ds : List Arrival) (w : World H)
        : Type 0 where
      pub file_same : w.file ≡ file
      pub distinct : Distinct w.sent
      pub sent : (k : ℕ) → contains w.sent k ≡ (contains (arrival_ids ds) k || contains before k)
      pub from : (k : ℕ) → contains (arrival_ids ds) k ≡ true → contains (arrival_ids as') k ≡ true

    abbrev Apart : List Arrival → List ℕ → Type 0
    Apart as' before = (k : ℕ) → contains (arrival_ids as') k ≡ true → contains before k ≡ false

    -- The arrivals that are left are apart from what was sent by then.
    next_distinct :
        (o : Option ℕ) (b : Bool) (rest : List Arrival) (before : List ℕ)
        → Distinct before
        → ((k : ℕ) → contains (with_id o (arrival_ids rest)) k ≡ true → contains before k ≡ false)
        → Distinct (sent_after o before b)
    next_distinct o false rest before d h = d
    next_distinct none true rest before d h = d
    next_distinct (some k) true rest before d h = (h k (ground arith), d)

    next-Apart :
        (o : Option ℕ) (b : Bool) (rest : List Arrival) (before : List ℕ)
        → Distinct (with_id o (arrival_ids rest))
        → ((k : ℕ) → contains (with_id o (arrival_ids rest)) k ≡ true → contains before k ≡ false)
        → Apart rest (sent_after o before b)
    next-Apart none false rest before d h k e = h k e
    next-Apart none true rest before d h k e = h k e
    next-Apart (some j) false rest before d h k e = ground (arith, h k, e)
    next-Apart (some j) true rest before d h k e = ground (arith, h k, e, d.0)

    later_distinct : (o : Option ℕ) (ks : List ℕ) → Distinct (with_id o ks) → Distinct ks
    later_distinct none ks d = d
    later_distinct (some k) ks d = d.1

    grow_sent :
        (o : Option ℕ) (b : Bool) (ds before now : List ℕ) (k : ℕ)
        → contains now k ≡ (contains ds k || contains (sent_after o before b) k)
        → contains now k ≡ (contains (sent_after o ds b) k || contains before k)
    grow_sent none false ds before now k e = e
    grow_sent none true ds before now k e = e
    grow_sent (some j) false ds before now k e = e
    grow_sent (some j) true ds before now k e = ground (arith, e)

    grow_from :
        (o : Option ℕ) (b : Bool) (ds rest : List ℕ) (k : ℕ)
        → (contains ds k ≡ true → contains rest k ≡ true)
        → contains (sent_after o ds b) k ≡ true
        → contains (with_id o rest) k ≡ true
    grow_from none false ds rest k h e = h e
    grow_from none true ds rest k h e = h e
    grow_from (some j) false ds rest k h e = ground (arith, h e)
    grow_from (some j) true ds rest k h e = ground (arith, h, e)

    sorted_ids :
        (a : Arrival) (b : Bool) (r : List Arrival × List Arrival)
        → arrival_ids (sorted_out a b r).0 ≡ sent_after a.request.id (arrival_ids r.0) b
    sorted_ids a true r = refl
    sorted_ids a false r = refl

    grow :
        (a : Arrival) (b : Bool) (rest : List Arrival) (before : List ℕ)
        (r : List Arrival × List Arrival) (w : World H)
        → Delivered rest (sent_after a.request.id before b) r.0 w
        → Delivered (a ∷ rest) before (sorted_out a b r).0 w
    grow a b rest before r w d = record {
      file_same = d.file_same;
      distinct = d.distinct;
      sent = λ k.
          rw (sorted_ids a b r)
            (grow_sent a.request.id b (arrival_ids r.0) before w.sent k (d.sent k));
      from = λ k e.
          grow_from a.request.id b (arrival_ids r.0) (arrival_ids rest) k (d.from k)
            (subst (λ ks. contains ks k ≡ true) (sorted_ids a b r) e);
    }

    pub deliver-Delivered :
        (c : Config) (as' : List Arrival) (before : List ℕ) (w : World H)
        → Distinct (arrival_ids as')
        → Distinct before
        → Apart as' before
        → Same H file before w
        → Gives (λ r. Delivered as' before r.0) (deliver H c as' w)
    unfolding deliver pure
    deliver-Delivered c [] before w d db ap' h = record {
      file_same = h.file_same;
      distinct = subst Distinct (sym h.sent_same) db;
      sent = λ k. ap (λ ks. contains ks k) h.sent_same;
      from = λ k e. e;
    }
    deliver-Delivered c (a ∷ rest) before w d db ap' h =
        Gives-bind (λ b. Same H file (sent_after a.request.id before b)) _
          (refresh H c a >> send H a) _ w
          (Gives-bind (λ u. Same H file before) _ _ _ w ((refresh-Works before c a).at w h)
            (λ u v hv. send-Gives a before v hv))
          (λ b x hx.
            Gives-bind (λ r. Delivered rest (sent_after a.request.id before b) r.0) _ _ _ x
              (deliver-Delivered c rest (sent_after a.request.id before b) x
                (later_distinct a.request.id (arrival_ids rest) d)
                (next_distinct a.request.id b rest before db ap')
                (next-Apart a.request.id b rest before d ap') hx)
              (λ r y hy. grow a b rest before r y hy))

  -- The keys of the entries are those of the arrivals and the ones before.
  abbrev pub Noted : List ℕ → List (ℕ × Notice) → List (ℕ × Notice) → Type 0
  Noted added entries noted =
      (k : ℕ) → contains (keys noted) k ≡ (contains added k || contains (keys entries) k)

  note_one-Gives :
      (sent : List ℕ) (a : Arrival) (o : Option ℕ) (entries : List (ℕ × Notice)) (w : World H)
      → Same H file sent w
      → Gives
          (λ noted v. Noted (with_id o []) entries noted × Same H file sent v)
          (note_one H a o entries w)
  unfolding note_one pure ask ◌>>=◌
  note_one-Gives sent a none entries w h = (λ k. refl, h)
  note_one-Gives sent a (some id) entries w h = (
    λ k. keys-assign k id _ entries ∙ ground arith,
    record { file_same = h.file_same; sent_same = h.sent_same },
  )

  Noted-more :
      (o : Option ℕ) (rest : List ℕ) (entries one all : List (ℕ × Notice))
      → Noted (with_id o []) entries one
      → Noted rest one all
      → Noted (with_id o rest) entries all
  Noted-more none rest entries one all h g k = ground (arith, h k, g k)
  Noted-more (some j) rest entries one all h g k = ground (arith, h k, g k)

  -- The entries of the delivered arrivals are added, and nothing else changes.
  pub note_all-Gives :
      (sent : List ℕ) (ds : List Arrival) (entries : List (ℕ × Notice)) (w : World H)
      → Same H file sent w
      → Gives
          (λ noted v. Noted (arrival_ids ds) entries noted × Same H file sent v)
          (note_all H ds entries w)
  unfolding note_all pure
  note_all-Gives sent [] entries w h = (λ k. refl, h)
  note_all-Gives sent (a ∷ rest) entries w h =
      Gives-bind (λ one v. Noted (with_id a.request.id []) entries one × Same H file sent v) _ _ _ w
        (note_one-Gives sent a a.request.id entries w h)
        (λ one v g.
          Gives-weaken (λ all u. Noted (arrival_ids rest) one all × Same H file sent u)
            (λ all u. Noted (arrival_ids (a ∷ rest)) entries all × Same H file sent u) _
            (note_all-Gives sent rest one v g.1)
            (λ all u k. (Noted-more a.request.id (arrival_ids rest) entries one all g.0 k.0, k.1)))
