-- ===== src/Database/Store.antt =====
-- database/db_store.go: DbMessageStore. The SQL engine is a parameter `E`, and what its Insert does
-- with the rows is one as well.
use ws_cluster.Common.{List, Option, none, some, M, pure}
use ws_cluster.Hub.Store.{ChatMsg}

-- SaveChatMsg, and SaveGroupMsg, which has the same code: without an engine nothing is stored, and
-- that is no error.
unfoldable pub save_chat_msg :
    {E D : Type 0} → (E → List ChatMsg → M D (Unit {0})) → Option E → List ChatMsg → M D (Unit {0})
save_chat_msg insert none msgs = pure tt
save_chat_msg insert (some engine) msgs = insert engine msgs

unfoldable pub save_group_msg :
    {E D : Type 0} → (E → List ChatMsg → M D (Unit {0})) → Option E → List ChatMsg → M D (Unit {0})
save_group_msg insert none msgs = pure tt
save_group_msg insert (some engine) msgs = insert engine msgs
