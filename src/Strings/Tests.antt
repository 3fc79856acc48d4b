-- ===== src/Strings/Tests.antt =====
-- Runs of the text routines.
use gensis32os.Prelude.{ltb, leb, if◌then◌else◌, ◌≡◌, refl, ◌&&◌, ◌||◌, some, arith}
use gensis32os.Memory.{Mem}
use gensis32os.Strings.{IsString, strcmp}

-- The text "aaa" at 8 and at 16.
abbrev texts : Mem
texts a = if (leb 8 a && ltb a 11) || (leb 16 a && ltb a 19) then 97 else 0

texts-IsString : IsString texts 8 3
texts-IsString = record { chars = λ i h. ground arith; terminator = refl }

same_texts : strcmp 4 texts 8 16 ≡ some 0
unfolding strcmp
same_texts = refl
