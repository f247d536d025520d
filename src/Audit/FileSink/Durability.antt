-- ===== src/Audit/FileSink/Durability.antt =====
-- internal/audit/filesink.go: acknowledged records are whole, in order and durable.
use mathlib.Core.List.{append-nil, append_assoc}
use ocu_mcp_gateway.Base.{
  ℕ, zero, suc, ◌≤◌, ◌≡◌, ◌⊎◌, some, ok, is_empty, ◌∙◌, inl, inr, refl, sym, ap, Bool, true, false,
  List, [], ◌∷◌, ◌++◌, if◌then◌else◌, ◌==◌, Str, length, take, arith, Bool-cases, ==_iff,
}
use ocu_mcp_gateway.Audit.FileSink.{
  FileSink, Fate, Outcome, published, line_of, written_to, close_now, publish, close, Opened,
  open_file_sink, Event, publishes, closes, step, run,
}

abbrev pub is_published : Outcome → Bool
is_published published = true
is_published _ = false

-- The lines of the calls that returned no error, oldest first.
unfoldable pub acknowledged : FileSink → List Event → Str
acknowledged s [] = []
acknowledged s (publishes payload f ∷ es) =
    let (s', o) = publish s payload f in
    let rest = acknowledged s' es in if is_published o then line_of payload ++ rest else rest
acknowledged s (closes ∷ es) = acknowledged (close s) es

-- The file holds `text`, all of it durable, and after it nothing while the sink is open.
pub record Holds (text : Str) (s : FileSink) : Type 0 where
  pub tail : Str
  pub split : s.content ≡ text ++ tail
  pub covered : length text ≤ s.durable
  pub clean : s.closed ≡ false → tail ≡ []

-- The same, with no word on what is durable.
pub record Stands (text : Str) (s : FileSink) : Type 0 where
  pub tail : Str
  pub split : s.content ≡ text ++ tail
  pub clean : s.closed ≡ false → tail ≡ []

Holds-Stands : (text : Str) (s : FileSink) → Holds text s → Stands text s
Holds-Stands text s h = record { tail = h.tail; split = h.split; clean = h.clean }

Stands-Holds : (text : Str) (s : FileSink) → Stands text s → length text ≤ s.durable → Holds text s
Stands-Holds text s h le = record { tail = h.tail; split = h.split; covered = le; clean = h.clean }

torn :
    (text : Str) (s : FileSink) (line : Str) (f : Fate)
    → Stands text s
    → Stands text (close_now (written_to s line f))
torn text s line f h = record {
  tail = h.tail ++ take f.written line;
  split = rw h.split (append_assoc text h.tail (take f.written line));
  clean = λ e. absurd (cc);
}

take-whole {ℓ} :
    {A : Type ℓ} (n : ℕ) (xs : List A) → length (take n xs) ≡ length xs → take n xs ≡ xs
take-whole zero [] e = refl
take-whole zero (x ∷ xs) e = absurd (omega arith)
take-whole (suc n) [] e = refl
take-whole (suc n) (x ∷ xs) e = ap (◌∷◌ x) (take-whole n xs (omega arith))

whole :
    (text : Str) (s : FileSink) (line : Str) (f : Fate)
    → Stands text s
    → s.closed ≡ false
    → length (take f.written line) ≡ length line
    → Holds (text ++ line) (record {
      content = s.content ++ take f.written line;
      durable = length (s.content ++ take f.written line);
      closed = false;
    })
whole text s line f h o e = record {
  tail = [];
  split =
      rw (h.split, h.clean o, take-whole f.written line e, append-nil text)
        (sym (append-nil (text ++ line)));
  covered = rw (h.split, h.clean o, take-whole f.written line e, append-nil text) (omega arith);
  clean = λ _. refl;
}

-- A call that is acknowledged has synced all that the file holds, and another has synced nothing.
publish-Stands :
    (text : Str) (s : FileSink) (payload : Str) (f : Fate)
    → Stands text s
    → let (s', o) = publish s payload f in
      ((is_published o ≡ true) × Holds (text ++ line_of payload) s')
      ⊎ ((is_published o ≡ false) × Stands text s' × (s'.durable ≡ s.durable))
unfolding publish
publish-Stands text s payload f h = elim (Bool-cases f.context_over) [
  | inl over ↦ rw over (inr (refl, h, refl))
  | inr on ↦ elim (Bool-cases s.closed) [
    | inl shut ↦ simp (on, shut) (inr (refl, h, refl))
    | inr open' ↦ elim (Bool-cases f.write_fails) [
      | inl fails ↦ rw (on, open', fails) (inr (refl, torn text s (line_of payload) f h, refl))
      | inr writes ↦
          elim (Bool-cases
            (length (take f.written (line_of payload)) == length (line_of payload))) [
              | inr short ↦
                  rw (on, open', writes, short)
                    (inr (refl, torn text s (line_of payload) f h, refl))
              | inl full ↦ elim (Bool-cases f.sync_fails) [
                | inl lost ↦
                    rw (on, open', writes, full, lost)
                      (inr (refl, torn text s (line_of payload) f h, refl))
                | inr synced ↦
                    simp (on, open', writes, full, synced)
                      (inl (refl, whole text s (line_of payload) f h open' ((==_iff _ _).0 full)))
              ]
            ]
    ]
  ]
]

pub publish-Holds :
    (text : Str) (s : FileSink) (payload : Str) (f : Fate)
    → Holds text s
    → let (s', o) = publish s payload f in
      Holds (if is_published o then text ++ line_of payload else text) s'
publish-Holds text s payload f h = elim (publish-Stands text s payload f (Holds-Stands text s h)) [
  | inl (yes', kept) ↦ rw yes' kept
  | inr (no', stands, same) ↦ rw no' (Stands-Holds text _ stands (rw same h.covered))
]

close-Stands :
    (text : Str) (s : FileSink)
    → Stands text s
    → Stands text (close s) × ((close s).durable ≡ s.durable)
unfolding close
close-Stands text s h = elim (Bool-cases s.closed) [
  | inl shut ↦ simp shut (h, refl)
  | inr open' ↦ rw open' (record { tail = h.tail; split = h.split; clean = λ e. absurd (cc) }, refl)
]

close-Holds : (text : Str) (s : FileSink) → Holds text s → Holds text (close s)
close-Holds text s h =
    let (stands, same) = close-Stands text s (Holds-Stands text s h) in
    Stands-Holds text (close s) stands (rw same h.covered)

run-Holds :
    (text : Str) (s : FileSink) (es : List Event)
    → Holds text s
    → Holds (text ++ acknowledged s es) (run s es)
unfolding run acknowledged step
run-Holds text s [] h = rw (append-nil text) h
run-Holds text s (publishes payload f ∷ es) h =
    let s' = (publish s payload f).0 in
    let kept = publish-Holds text s payload f h in
    elim (Bool-cases (is_published (publish s payload f).1)) [
      | inl yes' ↦
          rw (yes', ← append_assoc text (line_of payload) (acknowledged s' es))
            (run-Holds (text ++ line_of payload) s' es (rw yes' at kept))
      | inr no' ↦ rw no' (run-Holds text s' es (rw no' at kept))
    ]
run-Holds text s (closes ∷ es) h = run-Holds text (close s) es (close-Holds text s h)

-- After a run: the text and the acknowledged lines stand, and are durable once there is such a line.
abbrev After : Str → FileSink → List Event → Type 0
After text s es =
    Stands (text ++ acknowledged s es) (run s es)
    × ((acknowledged s es ≡ []) ⊎ (length (text ++ acknowledged s es) ≤ (run s es).durable))

run-After : (text : Str) (s : FileSink) (es : List Event) → Stands text s → After text s es
unfolding run acknowledged step
run-After text s [] h = rw (append-nil text) (h, inl refl)
run-After text s (publishes payload f ∷ es) h = elim (publish-Stands text s payload f h) [
  | inl (yes', kept) ↦
      let s' = (publish s payload f).0 in
      let held = run-Holds (text ++ line_of payload) s' es kept in
      rw (yes', ← append_assoc text (line_of payload) (acknowledged s' es))
        (Holds-Stands _ _ held, inr held.covered)
  | inr (no', stands, same) ↦ rw no' (run-After text _ es stands)
]
run-After text s (closes ∷ es) h = run-After text (close s) es (close-Stands text s h).0

opened-content :
    (path : Str) (found : Opened) (s : FileSink)
    → open_file_sink path (some found) ≡ ok s
    → s.content ≡ found.content
unfolding open_file_sink
opened-content path found s e = elim (Bool-cases (is_empty path)) [
  | inl empty ↦ absurd (ground (arith, empty))
  | inr named ↦ elim (Bool-cases found.directory_syncs) [
    | inl syncs ↦ ground (arith, named, syncs)
    | inr lost ↦ absurd (ground (arith, named, lost))
  ]
]

opened-Stands :
    (path : Str) (found : Opened) (s : FileSink)
    → open_file_sink path (some found) ≡ ok s
    → Stands found.content s
opened-Stands path found s e = record {
  tail = [];
  split = opened-content path found s e ∙ sym (append-nil found.content);
  clean = λ _. refl;
}

-- For a sink that was opened on a file, whatever becomes of each write and fsync: the file holds what it held
-- when it was opened, then the lines of exactly the acknowledged calls in their order, and then
-- nothing unless the sink is closed; and once a call was acknowledged, all up to the last
-- acknowledged line is durable, what the file held before included.
pub acknowledged_durable :
    (path : Str) (found : Opened) (opened : FileSink) (es : List Event)
    → open_file_sink path (some found) ≡ ok opened
    → let s = run opened es in
      let text = found.content ++ acknowledged opened es in
      (tail : Str) × (s.content ≡ text ++ tail)
      × ((acknowledged opened es ≡ []) ⊎ (length text ≤ s.durable))
      × (s.closed ≡ false → tail ≡ [])
acknowledged_durable path found opened es e =
    let (h, durable) = run-After found.content opened es (opened-Stands path found opened e) in
    (h.tail, h.split, durable, h.clean)
