-- ===== src/Tests/Requests.antt =====
-- The theorem on the request stream, with a buffer of two bytes and pieces of three.
use gocachez.Prelude.{◌≡◌, refl, some, ◌∷◌, ◌++◌, codes, arith}
use gocachez.Protocol.{JsonStringReader, quote, new_json_string_reader, read_all}
use gocachez.Protocol.Stream.{ending}
use gocachez.Protocol.Body.{read_all-new_json_string_reader}

read_all-new_json_string_reader_example :
    (r : JsonStringReader) × (new_json_string_reader (quote ∷ codes "aGk0=" ++ quote ∷ codes "\n{}")
      ≡ some r)
    × (read_all 2 3 6 r ≡ (some (codes "aGk0="), ending (codes "") (codes "\n{}")))
read_all-new_json_string_reader_example =
    read_all-new_json_string_reader 1 2 6 (codes "aGk0=") (codes "\n{}")
      ((refl, refl), ((refl, refl), ((refl, refl), ((refl, refl), ((refl, refl), tt)))))
      (omega arith)
