-- ===== src/Editor/Tests.antt =====
-- Tests and examples for the editor.
use foxplay_game.Common.{[], ◌∷◌, ◌≡◌, refl, arith}
use foxplay_game.Editor.{Area, unit, backspace, enter, changed, caret, key_down}
use foxplay_game.Editor.Pairs.{key_down-backspace}

-- Enter between brackets opens them out.
opened :
    key_down enter (caret (b'{' ∷ b'}' ∷ []) 1)
    ≡ changed (caret (b'{' ∷ 10 ∷ 32 ∷ 32 ∷ 10 ∷ b'}' ∷ []) 4)
unfolding key_down
opened = refl

-- At the end of a text, Backspace counts `undefined` as the closer of any other unit.
deleted : key_down backspace (caret (b'a' ∷ b'b' ∷ []) 2) ≡ changed (caret (b'a' ∷ []) 1)
unfolding key_down
deleted = refl

key_down-backspace_example :
    (b : Area) × (key_down (unit b'{') (caret (b'a' ∷ b'b' ∷ []) 1) ≡ changed b)
    × (key_down backspace b ≡ changed (caret (b'a' ∷ b'b' ∷ []) 1))
key_down-backspace_example =
    key_down-backspace (b'a' ∷ b'b' ∷ []) 1 b'{' b'}' refl (omega arith) (ground arith)
