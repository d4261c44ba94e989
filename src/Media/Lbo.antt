-- ===== src/Media/Lbo.antt =====
-- The addresses for local breakout in src/mod/gateways/mod_media/media_context.c: media_add_lbo_node,
-- media_find_lbo_node_by_key and media_remove_all_hash_key.
pub mod Hash
pub mod Laws
mod Tests
use common_framework.Base.{
  Bool, true, false, ◌&&◌, Option, none, some, List, [], ◌∷◌, ◌++◌, Status, status_false,
  if◌then◌else◌,
}
use common_framework.Media.Types.{Bytes}
use common_framework.Media.Routing.{bytes_at}
use common_framework.Media.Lbo.Hash.{Key, HashOps}

-- sockaddr_storage by its family, with sin_addr or sin6_addr.
pub data Sockaddr : Type 0 where
  af_inet af_inet6 : Bytes → Sockaddr

-- `key` and `key_len` of an address.
abbrev pub key_of : Sockaddr → Key
key_of (af_inet sin_addr) = bytes_at sin_addr 0 4
key_of (af_inet6 sin6_addr) = bytes_at sin6_addr 0 16

module _ (ops : HashOps) where
  open ops use {Table, put, get, empty}

  -- hash_key_list and lbo_ip_table of the context; a media_hash_key_table_t is known by its key. `freed`
  -- lists the nodes that were freed.
  pub record LboNodes : Type 0 where
    pub hash_key_list : List Key
    pub lbo_ip_table : Table
    pub freed : List Key

  abbrev pub no_nodes : LboNodes
  no_nodes = record { hash_key_list = []; lbo_ip_table = empty; freed = [] }

  abbrev pub appended : Key → LboNodes → LboNodes
  appended key n = record n {
    hash_key_list = n.hash_key_list ++ key ∷ [];
    lbo_ip_table = put key key n.lbo_ip_table;
  }

  -- media_add_lbo_node; `node_there` and `key_there` tell whether the two calls of malloc succeed.
  unfoldable pub add_lbo_node :
      (node_there key_there : Bool) → Sockaddr → LboNodes → Status × LboNodes
  add_lbo_node node_there key_there addr n =
      if node_there && key_there
      then (status_false, appended (key_of addr) n)
      else (status_false, n)

  -- media_find_lbo_node_by_key; `none` is NULL.
  unfoldable pub find_lbo_node_by_key : Key → LboNodes → Option Key
  find_lbo_node_by_key key n = get key n.lbo_ip_table

  -- media_remove_all_hash_key: the list and the table keep the pointers.
  unfoldable pub remove_all_hash_key : LboNodes → LboNodes
  remove_all_hash_key n = record n { freed = n.freed ++ n.hash_key_list }

  -- The nodes of the configured addresses, where memory is there.
  unfoldable pub add_all : List Sockaddr → LboNodes → LboNodes
  add_all [] n = n
  add_all (a ∷ l) n = add_all l (add_lbo_node true true a n).1

  abbrev pub is_there : Option Key → Bool
  is_there none = false
  is_there (some k) = true

  -- Whether the filter finds an address in the table.
  abbrev pub is_lbo : LboNodes → Key → Bool
  is_lbo n key = is_there (find_lbo_node_by_key key n)
