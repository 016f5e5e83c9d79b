-- ===== src/Rtf/Dictionary.antt =====
-- src/pypstreader/_rtf_dictionary.py: the 207 bytes that every dictionary starts with.
use pypst_reader.Prelude.{[], ◌∷◌}
use pypst_reader.Bytes.{Bytes}

unfoldable pub initial_dictionary : Bytes
initial_dictionary =
    123 ∷ 92 ∷ 114 ∷ 116 ∷ 102 ∷ 49 ∷ 92 ∷ 97 ∷ 110 ∷ 115 ∷ 105 ∷ 92 ∷ 109 ∷ 97 ∷ 99 ∷ 92 ∷ 100
    ∷ 101 ∷ 102 ∷ 102 ∷ 48 ∷ 92 ∷ 100 ∷ 101 ∷ 102 ∷ 116 ∷ 97 ∷ 98 ∷ 55 ∷ 50 ∷ 48 ∷ 123 ∷ 92 ∷ 102
    ∷ 111 ∷ 110 ∷ 116 ∷ 116 ∷ 98 ∷ 108 ∷ 59 ∷ 125 ∷ 123 ∷ 92 ∷ 102 ∷ 48 ∷ 92 ∷ 102 ∷ 110 ∷ 105 ∷ 108
    ∷ 32 ∷ 92 ∷ 102 ∷ 114 ∷ 111 ∷ 109 ∷ 97 ∷ 110 ∷ 32 ∷ 92 ∷ 102 ∷ 115 ∷ 119 ∷ 105 ∷ 115 ∷ 115 ∷ 32
    ∷ 92 ∷ 102 ∷ 109 ∷ 111 ∷ 100 ∷ 101 ∷ 114 ∷ 110 ∷ 32 ∷ 92 ∷ 102 ∷ 115 ∷ 99 ∷ 114 ∷ 105 ∷ 112
    ∷ 116 ∷ 32 ∷ 92 ∷ 102 ∷ 100 ∷ 101 ∷ 99 ∷ 111 ∷ 114 ∷ 32 ∷ 77 ∷ 83 ∷ 32 ∷ 83 ∷ 97 ∷ 110 ∷ 115
    ∷ 32 ∷ 83 ∷ 101 ∷ 114 ∷ 105 ∷ 102 ∷ 83 ∷ 121 ∷ 109 ∷ 98 ∷ 111 ∷ 108 ∷ 65 ∷ 114 ∷ 105 ∷ 97 ∷ 108
    ∷ 84 ∷ 105 ∷ 109 ∷ 101 ∷ 115 ∷ 32 ∷ 78 ∷ 101 ∷ 119 ∷ 32 ∷ 82 ∷ 111 ∷ 109 ∷ 97 ∷ 110 ∷ 67 ∷ 111
    ∷ 117 ∷ 114 ∷ 105 ∷ 101 ∷ 114 ∷ 123 ∷ 92 ∷ 99 ∷ 111 ∷ 108 ∷ 111 ∷ 114 ∷ 116 ∷ 98 ∷ 108 ∷ 92
    ∷ 114 ∷ 101 ∷ 100 ∷ 48 ∷ 92 ∷ 103 ∷ 114 ∷ 101 ∷ 101 ∷ 110 ∷ 48 ∷ 92 ∷ 98 ∷ 108 ∷ 117 ∷ 101 ∷ 48
    ∷ 13 ∷ 10 ∷ 92 ∷ 112 ∷ 97 ∷ 114 ∷ 32 ∷ 92 ∷ 112 ∷ 97 ∷ 114 ∷ 100 ∷ 92 ∷ 112 ∷ 108 ∷ 97 ∷ 105
    ∷ 110 ∷ 92 ∷ 102 ∷ 48 ∷ 92 ∷ 102 ∷ 115 ∷ 50 ∷ 48 ∷ 92 ∷ 98 ∷ 92 ∷ 105 ∷ 92 ∷ 117 ∷ 92 ∷ 116 ∷ 97
    ∷ 98 ∷ 92 ∷ 116 ∷ 120 ∷ []
