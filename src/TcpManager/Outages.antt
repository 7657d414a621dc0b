-- ===== src/TcpManager/Outages.antt =====
-- What a slave is when its connection to the master has failed: the callbacks `read` and `disconnect` of
-- TCPSlaveMessager in src/tcp_messager.cc and of TCPManager in src/tcp_manager.cc, with UserFS behind
-- them.
use group_share_filesystem.Base.{List, [], ◌∷◌, Outcome, ok, ◌>>=◌}
use group_share_filesystem.Archive.{Archive}
use group_share_filesystem.TcpMessager.Slave.{
  Action, start_read, start_write, deliver, disconnected,
}
use group_share_filesystem.UserFs.{UserFs, disconnect_from_master}
use group_share_filesystem.TcpManager.{read_from_master}

module _ (archive : Archive) where
  -- The callbacks that the messager of a slave makes, in order.
  unfoldable pub call_back : List Action → UserFs → Outcome UserFs
  call_back [] fs = ok fs
  call_back (deliver p ∷ actions) fs = read_from_master archive p fs >>= call_back actions
  call_back (disconnected ∷ actions) fs = disconnect_from_master archive fs >>= call_back actions
  call_back (start_read n ∷ actions) fs = call_back actions fs
  call_back (start_write p ∷ actions) fs = call_back actions fs
