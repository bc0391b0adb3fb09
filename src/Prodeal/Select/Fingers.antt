-- ===== src/Prodeal/Select/Fingers.antt =====
-- The finger files that `topAfpFile` names, line by line.
-- The finger file of each song.
use finger_move.Base.{
  All, List, [], append_assoc, arith, false, length-append, map, refl, ℕ, ◌++◌, ◌∷◌, ◌≡◌,
}
use finger_move.Clib.{Bytes, codes, has_byte, newline}
use finger_move.Clib.Laws.Lines.{IsText, has_byte-append, written}
use finger_move.Prodeal.Select.Entries.{IsEntry}
use finger_move.Prodeal.Select.Top.{afp_text}
use finger_move.Prodeal.Select.Written.{entry_text}

abbrev pub finger_names : List (Bytes × ℕ) → List Bytes
finger_names = map (λ e. e.0 ++ codes ".afp")

pub afp_text-written : (l : List (Bytes × ℕ)) → afp_text l ≡ written (finger_names l)
afp_text-written [] = refl
afp_text-written (e ∷ l) =
    rw (afp_text-written l)
      (append_assoc (e.0 ++ codes ".afp") (newline ∷ []) (written (finger_names l)))

pub has_byte-left : (c : ℕ) (s t : Bytes) → has_byte c (s ++ t) ≡ false → has_byte c s ≡ false
has_byte-left c s t h = ground (arith, has_byte-append c s t, h)

finger_name-IsText :
    (k : Bytes) (n : ℕ) → IsEntry (k, n) → IsText (entry_text (k, n)) → IsText (k ++ codes ".afp")
unfolding has_byte
finger_name-IsText k n h t = (
  rw (has_byte-append newline k (codes ".afp"), has_byte-left newline k _ t.0),
  rw (has_byte-append 0 k (codes ".afp"), has_byte-left 0 k _ t.1),
  omega (arith, length-append k (codes ".afp"), h.0.2),
)

pub finger_names-IsText :
    (l : List (Bytes × ℕ))
    → All IsEntry l
    → All (λ (e : Bytes × ℕ). IsText (entry_text e)) l
    → All IsText (finger_names l)
finger_names-IsText [] h k = tt
finger_names-IsText (e ∷ l) h k =
    (finger_name-IsText e.0 e.1 h.0 k.0, finger_names-IsText l h.1 k.1)
