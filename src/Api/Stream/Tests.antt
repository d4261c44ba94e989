-- ===== src/Api/Stream/Tests.antt =====
-- Writes to a fresh stream.
use common_framework.Base.{◌≡◌, some, List, [], ◌∷◌, arith}
use common_framework.Base.CString.{lit}
use common_framework.Api.Stream.{Stream, stand_stream, Write, formatted, raw, write_all}
use common_framework.Api.Stream.Written.{Appended, write_all-Appended, stand_stream-Open}

abbrev writes : List Write
writes = formatted (lit "ok ") ∷ raw (lit "42") ∷ []

write_all-Appended_example :
    (h' : Stream) × (write_all writes stand_stream ≡ some h')
    × Appended stand_stream (lit "ok 42") h'
write_all-Appended_example =
    write_all-Appended writes stand_stream stand_stream-Open
      ((omega arith, (omega arith, (omega arith, tt))), ((omega arith, (omega arith, tt)), tt))
