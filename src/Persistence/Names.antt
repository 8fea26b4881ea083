-- ===== src/Persistence/Names.antt =====
-- persistence/utils.rs: the validity of the names of devices, groups and tasks.
use Prim.Native.Char.{code}
use meesign_server.Base.{ℕ, String, Bool, not, ◌&&◌, ◌||◌, List, [], ◌∷◌, length, any, leb, ltb}

-- `MAX_NAME_LENGTH`
abbrev pub max_name_length : ℕ
max_name_length = 256

-- `str::chars`, as code points.
unfoldable pub chars : String → List ℕ
chars String.[] = []
chars (String.◌∷◌ c s) = code c ∷ chars s

-- `char::is_control`: the general category Cc.
unfoldable pub is_control : ℕ → Bool
is_control c = leb c 31 || leb 127 c && leb c 159

-- `NameValidator::is_name_valid`
unfoldable pub is_name_valid : String → Bool
unfolding is_control chars
is_name_valid s =
    leb (length (chars s)) max_name_length
    && not (any is_control (chars s))
    && ltb 0 (length (chars s))
