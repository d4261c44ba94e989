-- ===== src/Media/Sessions/Tests.antt =====
-- The session table with one session at place 2 of four.
use common_framework.Base.{◌≡◌, refl, ◌↔◌, some, arith}
use common_framework.Media.Sample.{node, raw, sess, table, context, context-TableOk}
use common_framework.Media.Sessions.{
  add_media_sig_sess, find_media_sig_sess_by_id, find_media_sig_sess_by_teid, search_id,
  gtp_node_n3_v4_first,
}
use common_framework.Media.Sessions.FreeId.{SearchResult, search_id-SearchResult}
use common_framework.Media.Sessions.Laws.{AddResult, add_media_sig_sess-AddResult}
use common_framework.Media.Sessions.Lookup.{IsTeidOf, find_by_teid-IsTeidOf}

search_id-SearchResult_example :
    SearchResult 4 (omega arith) (omega arith) 1 table (search_id 4 4 table 2)
search_id-SearchResult_example =
    search_id-SearchResult 4 (omega arith) (omega arith) 2 1 table refl (omega arith) (omega arith)
      (omega arith)

add_media_sig_sess-AddResult_example :
    AddResult 4 (omega arith) (omega arith) 2 context (add_media_sig_sess 4 raw 123 context)
unfolding gtp_node_n3_v4_first
add_media_sig_sess-AddResult_example =
    add_media_sig_sess-AddResult 4 (omega arith) (omega arith) raw 123 2 context node
      context-TableOk refl (omega arith) (omega arith)

-- 11 is the local TEID of its IPv6 path to the UPF.
find_by_teid-IsTeidOf_example :
    (find_media_sig_sess_by_teid 4 11 context ≡ some (some sess))
    ↔ (IsTeidOf 11 sess × (find_media_sig_sess_by_id 4 2 context ≡ some (some sess)))
find_by_teid-IsTeidOf_example = find_by_teid-IsTeidOf 4 11 context sess context-TableOk
