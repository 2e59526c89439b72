-- ===== src/Server/Text/Views.antt =====
-- server.c: `copy_view_to`, and the text that a view shows.
use cse130_asgn.Base.{
  ℕ, ◌+◌, ◌≤◌, ◌<◌, true, false, leb, List, [], ◌∷◌, ◌++◌, append-nil, append_assoc, some, length,
  ◌≡◌, refl, arith, drop-append, length-append, ==_ne, ==_same,
}
use cse130_asgn.Memory.{Memory}
use cse130_asgn.Memory.Filled.{Filled, Fills, store-Filled}
use cse130_asgn.StrView.{StringView, create_view, is_empty_view}
use cse130_asgn.Server.Text.{copy_view_from, copy_view_to}

-- What a view of a memory shows: nothing, or a text of one byte or more.
pub data Shows (mem : Memory) : StringView → List ℕ → Type 0 where
  nothing : {v : StringView} → is_empty_view v ≡ true → Shows mem v []
  spans :
      (pre text post : List ℕ) {s e : ℕ}
      → mem ≡ pre ++ (text ++ post)
      → s ≡ length pre
      → e ≡ s + length text
      → 0 < length text
      → Shows mem (create_view (some s) (some e)) text

module _ {size : ℕ} where
  copy_view_from-Fills :
      (bs post : List ℕ) (s e : ℕ) {text : List ℕ} {mem : Memory} {p : ℕ}
      → e ≡ s + length bs
      → Filled size text mem p
      → length text + length bs ≤ size
      → Fills size (text ++ bs) (copy_view_from (bs ++ post) s e mem p size)
  unfolding copy_view_from
  copy_view_from-Fills [] [] s e {text} {mem} {p} he f fit = record {
    mem = mem;
    end = p;
    runs = rw (==_same s e (omega arith)) refl;
    filled = rw (append-nil text) f;
  }
  copy_view_from-Fills [] (x ∷ post) s e {text} {mem} {p} he f fit = record {
    mem = mem;
    end = p;
    runs = rw (==_same s e (omega arith)) refl;
    filled = rw (append-nil text) f;
  }
  copy_view_from-Fills (b ∷ bs) post s e {text} {mem} {p} he f fit =
      let (mem', ran, filled) = store-Filled b f (omega arith) in
      let g =
        copy_view_from-Fills bs post (s + 1) e (omega arith) filled
          (omega (arith, length-append text (b ∷ []))) in
      record {
        mem = g.mem;
        end = g.end;
        runs = rw (==_ne s e (omega arith), ==_ne p size (omega (arith, f.end_eq)), ran) g.runs;
        filled = rw (← append_assoc text (b ∷ []) bs) g.filled;
      }

  pub copy_view_to-Fills :
      {src : Memory} {v : StringView} {bs text : List ℕ} {mem : Memory} {p : ℕ}
      → Shows src v bs
      → Filled size text mem p
      → length text + length bs ≤ size
      → Fills size (text ++ bs) (copy_view_to src v mem p size)
  unfolding copy_view_to is_empty_view
  copy_view_to-Fills {text} {mem} {p} (nothing empty) f fit = record {
    mem = mem;
    end = p;
    runs = rw empty refl;
    filled = rw (append-nil text) f;
  }
  copy_view_to-Fills (spans pre bs post {s} {e} hm hs he some_bytes) f fit =
      let g = copy_view_from-Fills bs post s e he f fit in
      let not_empty : leb e s ≡ false = ground arith in
      record {
        mem = g.mem;
        end = g.end;
        runs = rw (not_empty, hm, drop-append pre (bs ++ post) s hs) g.runs;
        filled = g.filled;
      }
