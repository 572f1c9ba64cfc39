-- ===== src/Cluster/Client/Closed.antt =====
-- `Put` of cluster/clusteredBigCache.go after `ShutDown` closed the channels and `Start` set the
-- state again.
use ngbigcache.Utils.SliceList as slice_list
use ngbigcache.Cache.BigCache.{BigCache}
use ngbigcache.Cluster.Types.{Cluster}
