-- ===== src/Search/Scanned.antt =====
-- What holds of each hit of a scan holds of them all, and a scan asks for few pages (src/core.rs:
-- `search`, its second half).
use omarchy_chatd.Search.Scan.{
  SearchHit, ScanEvent, PageAnswer, got, no_answer, SearchRoom, Scan, hit_of, scan_message,
  scan_parsed, scan_events, Next, next_room, over, scan_page, scan_pages, after_room, scan_rooms,
}
use omarchy_chatd.Messages.Events.{RoomMessage}
use omarchy_chatd.Messages.Convert.{is_replacement}
use omarchy_chatd.Media.Attachment.{body_of}
use omarchy_chatd.Base.{
  ℕ, zero, suc, ◌+◌, ◌*◌, ◌≤◌, ◌≡◌, refl, inl, inr, true, false, Option, none, some, List, [], ◌∷◌,
  arith, ltb, Bool-cases, unwrap_or, length, All, All-append, In, Text, contains,
}

module _ (P : SearchHit → Type 0) (to_lowercase : Text → Text) (needle : Text) where
  -- What is fine of a message, of an event and of a room.
  abbrev pub FineMessage : SearchRoom → RoomMessage → Option Text → Type 0
  FineMessage room m bundled =
      contains (to_lowercase (unwrap_or (body_of m.msgtype) bundled)) needle ≡ true
      → P (hit_of room m (unwrap_or (body_of m.msgtype) bundled))

  abbrev pub FineParsed : SearchRoom → Option RoomMessage → Option Text → Type 0
  FineParsed room o bundled =
      (m : RoomMessage)
      → o ≡ some m
      → is_replacement m.relates_to ≡ false
      → FineMessage room m bundled

  abbrev pub FinePage : SearchRoom → List ScanEvent → Type 0
  FinePage room evs = (ev : ScanEvent) → In ev evs → FineParsed room ev.message ev.bundled

  abbrev pub FineRoom : SearchRoom → Type 0
  FineRoom room =
      (from : Option Text) (evs : List ScanEvent) (more : Option Text)
      → room.messages from ≡ got evs more
      → FinePage room evs

  -- What a part of the scan does: its hits are fine, and it asks for at most some pages.
  pub record IsScanned (pages : ℕ) (s s' : Scan) : Type 0 where
    pub fine : All P s'.hits
    pub few : s'.requests ≤ s.requests + pages

  scan_message-All :
      (room : SearchRoom) (m : RoomMessage) (bundled : Option Text) (s : Scan)
      → FineMessage room m bundled
      → All P s.hits
      → IsScanned 0 s (scan_message to_lowercase needle room m bundled s)
  unfolding scan_message hit_of
  scan_message-All room m bundled s f a =
      let body = unwrap_or (body_of m.msgtype) bundled in
      elim (Bool-cases (contains (to_lowercase body) needle)) [
        | inl y ↦ rw y (record {
          fine = All-append P s.hits (hit_of room m body ∷ []) a (f y, tt);
          few = omega arith;
        })
        | inr n ↦ rw n (record { fine = a; few = omega arith })
      ]

  scan_parsed-All :
      (room : SearchRoom) (o : Option RoomMessage) (bundled : Option Text) (s : Scan)
      → FineParsed room o bundled
      → All P s.hits
      → IsScanned 0 s (scan_parsed to_lowercase needle room o bundled s)
  unfolding scan_parsed
  scan_parsed-All room none bundled s f a = record { fine = a; few = omega arith }
  scan_parsed-All room (some m) bundled s f a = elim (Bool-cases (is_replacement m.relates_to)) [
    | inl y ↦ rw y (record { fine = a; few = omega arith })
    | inr n ↦ rw n (scan_message-All room m bundled s (f m refl n) a)
  ]

  scan_events-All :
      (room : SearchRoom) (evs : List ScanEvent) (s : Scan)
      → FinePage room evs
      → All P s.hits
      → IsScanned 0 s (scan_events to_lowercase needle room evs s)
  unfolding scan_events
  scan_events-All room [] s f a = record { fine = a; few = omega arith }
  scan_events-All room (ev ∷ evs) s f a =
      let one = scan_parsed-All room ev.message ev.bundled s (f ev (inl refl)) a in
      let rest =
        scan_events-All room evs (scan_parsed to_lowercase needle room ev.message ev.bundled s)
          (λ e i. f e (inr i)) one.fine in
      record { fine = rest.fine; few = omega (arith, one.few, rest.few) }

  scan_page-All :
      (room : SearchRoom) (again : Option Text → Scan → Scan × Next) (answer : PageAnswer)
      (pages : ℕ) (s : Scan)
      → ((evs : List ScanEvent) (more : Option Text) → answer ≡ got evs more → FinePage room evs)
      → All P s.hits
      → ((from : Option Text) (t : Scan) → All P t.hits → IsScanned pages t (again from t).0)
      → IsScanned pages s (scan_page to_lowercase needle room again answer s).0
  unfolding scan_page
  scan_page-All room again (no_answer late) pages s f a ih = record { fine = a; few = omega arith }
  scan_page-All room again (got evs none) pages s f a ih =
      let p = scan_events-All room evs s (f evs none refl) a in
      record { fine = p.fine; few = omega (arith, p.few) }
  scan_page-All room again (got evs (some token)) pages s f a ih =
      let s' = scan_events to_lowercase needle room evs s in
      let p = scan_events-All room evs s (f evs (some token) refl) a in
      let q = ih (some token) s' p.fine in
      elim (Bool-cases (ltb (length evs) 100)) [
        | inl y ↦ rw y (record { fine = p.fine; few = omega (arith, p.few) })
        | inr n ↦ rw n (record { fine = q.fine; few = omega (arith, p.few, q.few) })
      ]

  scan_pages-All :
      (room : SearchRoom) (pages : ℕ) (from : Option Text) (s : Scan)
      → FineRoom room
      → All P s.hits
      → IsScanned pages s (scan_pages to_lowercase needle room pages from s).0
  unfolding scan_pages
  scan_pages-All room zero from s f a = record { fine = a; few = omega arith }
  scan_pages-All room (suc pages) from s f a =
      let asked : Scan = record s { requests = s.requests + 1 } in
      let p =
        scan_page-All room (scan_pages to_lowercase needle room pages) (room.messages from) pages
          asked (f from) a (λ t u. scan_pages-All room pages t u f) in
      record { fine = p.fine; few = omega (arith, p.few) }

  after_room-All :
      (next : Next) (pages more : ℕ) (s t : Scan) (again : Scan → Scan)
      → IsScanned pages s t
      → IsScanned more t (again t)
      → IsScanned (pages + more) s (after_room next t again)
  unfolding after_room
  after_room-All next_room pages more s t again p q = record {
    fine = q.fine;
    few = omega (arith, p.few, q.few);
  }
  after_room-All over pages more s t again p q = record {
    fine = p.fine;
    few = omega (arith, p.few);
  }

  pub scan_rooms-All :
      (pages : ℕ) (rooms : List SearchRoom) (s : Scan)
      → ((room : SearchRoom) → FineRoom room)
      → All P s.hits
      → IsScanned (length rooms * pages) s (scan_rooms to_lowercase needle pages rooms s)
  unfolding scan_rooms
  scan_rooms-All pages [] s f a = record { fine = a; few = omega arith }
  scan_rooms-All pages (room ∷ rooms) s f a =
      let r = scan_pages to_lowercase needle room pages none s in
      let p = scan_pages-All room pages none s (f room) a in
      let q = scan_rooms-All pages rooms r.0 f p.fine in
      let w =
        after_room-All r.1 pages (length rooms * pages) s r.0
          (scan_rooms to_lowercase needle pages rooms) p q in
      record { fine = w.fine; few = grind (arith, w.few) }
