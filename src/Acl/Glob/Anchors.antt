-- ===== src/Acl/Glob/Anchors.antt =====
-- The text of a whole expression of `KVRule.Compile` in internal/acl/types.go.
use Prim.Native.Char.{Char, code}
use Prim.Native.String.{[], ◌∷◌}
use konsul.Prelude.{Bool, true, false, String, List, All, ◌≡◌, refl, ap, ◌∙◌, ◌==◌}
use konsul.Prelude.Text.{◌<>◌, starts_with}
use konsul.Acl.Pattern.{anchored, kv_pattern}
use konsul.Acl.Replace.{append_laws, escape, escaped, is_special, elem_ne}
use konsul.Acl.Glob.Avoids.{avoids, avoids-append, avoids-escaped, ends_with-avoids}
use konsul.Acl.Glob.Text.{replaced-write}
use konsul.Acl.Glob.{
  Piece, star, double_star, only, IsPlain, is_plain, reserved, pieces, pieces_from-IsPlain, render,
  write,
}

-- No piece begins with `^` or has a `$`.
starts_first :
    (c d : Char) (s t : String)
    → code c == code d ≡ false
    → starts_with ((c ∷ s) <> t) (d ∷ []) ≡ false
unfolding starts_with
starts_first c d s t h = simp append_laws (rw h refl)

starts_escaped :
    (t : Bool) (c : Char) (s : String)
    → code c == 94 ≡ false
    → starts_with (escaped t c <> s) "^" ≡ false
starts_escaped true c s h = starts_first _ "^" (c ∷ []) s refl
starts_escaped false c s h = starts_first c "^" [] s h

starts-write : (ps : List Piece) → All IsPlain ps → starts_with (write render ps) "^" ≡ false
unfolding write starts_with
starts-write List.[] h = refl
starts-write (List.◌∷◌ star ps) h = starts_first "[" "^" "^/]*" (write render ps) refl
starts-write (List.◌∷◌ double_star ps) h = starts_first "." "^" "*" (write render ps) refl
starts-write (List.◌∷◌ (only c) ps) ((no_star, p), h) =
    starts_escaped (is_special (code c)) c (write render ps) (elem_ne (code c) 94 reserved p refl)

avoids-write : (ps : List Piece) → All IsPlain ps → avoids 36 (write render ps) ≡ true
unfolding write
avoids-write List.[] h = refl
avoids-write (List.◌∷◌ star ps) h =
    avoids-append 36 "[^/]*" (write render ps) refl (avoids-write ps (h.1))
avoids-write (List.◌∷◌ double_star ps) h =
    avoids-append 36 ".*" (write render ps) refl (avoids-write ps (h.1))
avoids-write (List.◌∷◌ (only c) ps) ((no_star, p), h) =
    avoids-append 36 (escape c) (write render ps)
      (avoids-escaped 36 (is_special (code c)) c refl (elem_ne (code c) 36 reserved p refl))
      (avoids-write ps h)

anchored-write :
    (ps : List Piece)
    → All IsPlain ps
    → anchored (write render ps) ≡ ("^" <> write render ps) <> "$"
unfolding anchored
anchored-write ps h =
    rw
      (
        starts-write ps h,
        ends_with-avoids ("^" <> write render ps)
            (avoids-append 36 "^" (write render ps) refl (avoids-write ps h)),
      )
      refl

-- The expression of a pattern without the reserved characters is that of its pieces, one after
-- the other, between the two anchors.
pub kv_pattern-write :
    (path : String)
    → is_plain path ≡ true
    → kv_pattern path ≡ ("^" <> write render (pieces path)) <> "$"
unfolding kv_pattern
kv_pattern-write path h =
    ap anchored (replaced-write path h)
    ∙ anchored-write (pieces path) (pieces_from-IsPlain false path h)
